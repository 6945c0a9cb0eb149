-- ===== src/Xv6/Log/Tests.antt =====
-- Concrete logs of 03-xv6-stcf-scheduler/log.c.
use systems_programming_port.Prelude.{
  ℕ, ◌+◌, ◌≡◌, refl, ◌⊎◌, inr, true, false, [], ◌∷◌, arith, leb, ◌==◌, if◌then◌else◌,
}
use systems_programming_port.Xv6.Log.{Log, has_block, header_of, commit, initlog}
use systems_programming_port.Xv6.Log.View.{IsHome, Fits}
use systems_programming_port.Xv6.Log.Crash.{commit_lem, boot, boots, commit-boots}
use systems_programming_port.Xv6.Log.Space.{Ongoing}

-- The log in the blocks 2 to 32 of a disk of zeros.
abbrev idle : Log
idle = record {
  start = 2;
  size = 31;
  outstanding = 0;
  committing = false;
  lh = [];
  disk = λ b i. 0;
  cache = λ b i. 0;
  pinned = λ b. false;
  left = 3;
}

-- Two blocks modified in their buffers and logged; the power fails after the third write.
abbrev full : Log
full = record idle {
  outstanding = 1;
  lh = 40 ∷ 41 ∷ [];
  cache = λ b i. if leb 40 b then b + i else 0;
}

full-Fits : Fits 2 31 (40 ∷ 41 ∷ [])
full-Fits = (inr (omega arith), refl, (inr (omega arith), refl, omega arith))

full_clear : header_of (full.disk 2) ≡ []
unfolding header_of
full_clear = refl

abbrev powered : Log
powered = record full { left = 6 }

commit_lem_example :
    (header_of ((commit powered).disk 2) ≡ [])
    × ((x : ℕ)
        → IsHome 2 31 x
        → (commit powered).disk x
          ≡ (if has_block x powered.lh then powered.cache x else powered.disk x))
commit_lem_example = commit_lem powered full-Fits (omega arith) full_clear (omega arith)

-- The first boot fails at its second write, the second one runs through.
commit-boots_example :
    let d = (boot 2 31 31 (boots 2 31 (1 ∷ []) (commit full))).disk in
    ((x : ℕ) → IsHome 2 31 x → d x ≡ full.disk x)
    ⊎ ((x : ℕ) → IsHome 2 31 x → d x ≡ (if has_block x full.lh then full.cache x else full.disk x))
commit-boots_example =
    commit-boots full (1 ∷ []) 31 full-Fits (omega arith) full_clear (omega arith)

replayed : (boot 2 31 31 (boots 2 31 (1 ∷ []) (commit full))).disk 41 5 ≡ 46
unfolding commit initlog
replayed = refl

lost : (boot 2 31 31 (commit (record full { left = 2 }))).disk 41 5 ≡ 0
unfolding commit initlog
lost = refl

-- An operation begins and writes the block 40.
abbrev begun : Log
begun = record idle { outstanding = 1 }

abbrev wrote : Log
wrote = record begun { lh = 40 ∷ []; pinned = λ b. if 40 == b then true else false }

abbrev later : Ongoing
later = record { log = wrote; ops = 9 ∷ [] }
