-- ===== src/Wfs/Memory/Laws.antt =====
-- Reading back from the disk image what was stored.
use systems_programming_port.Prelude.{
  ℕ, zero, suc, ◌+◌, ◌-◌, ◌/◌, ◌%◌, ◌≤◌, ◌<◌, ◌≡◌, refl, sym, ap, subst, ◌⊎◌, inl, inr, arith,
  length, get_or, Bytes,
}
use systems_programming_port.Wfs.Memory.{Memory, poke, memset_zero, bytes_of, load, store_num}

abbrev pub Outside : ℕ → ℕ → ℕ → Type 0
Outside a n x = (x < a) ⊎ (a + n ≤ x)

pub poke-Outside :
    (a x : ℕ) (bs : Bytes) (m : Memory) → Outside a (length bs) x → poke a bs m x ≡ m x
unfolding poke
poke-Outside a x bs m (inl h) = ground arith
poke-Outside a x bs m (inr h) = ground arith

pub poke-inside :
    (a x : ℕ) (bs : Bytes) (m : Memory)
    → a ≤ x
    → x < a + length bs
    → poke a bs m x ≡ get_or bs (x - a) 0
unfolding poke
poke-inside a x bs m h k = ground arith

pub memset_zero-Outside : (a n x : ℕ) (m : Memory) → Outside a n x → memset_zero a n m x ≡ m x
unfolding memset_zero
memset_zero-Outside a n x m (inl h) = ground arith
memset_zero-Outside a n x m (inr h) = ground arith

pub memset_zero-inside : (a n x : ℕ) (m : Memory) → a ≤ x → x < a + n → memset_zero a n m x ≡ 0
unfolding memset_zero
memset_zero-inside a n x m h k = ground arith

pub load-ext :
    (n a : ℕ) (m m' : Memory)
    → ((x : ℕ) → a ≤ x → x < a + n → m x ≡ m' x)
    → load n a m ≡ load n a m'
unfolding load
load-ext zero a m m' h = refl
load-ext (suc n) a m m' h =
    rw
      (
        h a (omega arith) (omega arith),
        load-ext n (a + 1) m m' (λ x p q. h x (omega (arith, p)) (omega (arith, q))),
      )
      refl

pub load-zeroed : (n a : ℕ) (m : Memory) → ((x : ℕ) → a ≤ x → x < a + n → m x ≡ 0) → load n a m ≡ 0
unfolding load
load-zeroed zero a m h = refl
load-zeroed (suc n) a m h = omega (
  arith,
  h a (omega arith) (omega arith),
  load-zeroed n (a + 1) m (λ x p q. h x (omega (arith, p)) (omega (arith, q))),
)

pub length-bytes_of : (n v : ℕ) → length (bytes_of n v) ≡ n
unfolding bytes_of
length-bytes_of zero v = refl
length-bytes_of (suc n) v = ap suc (length-bytes_of n (v / 256))

-- A number that `n` bytes hold.
abbrev pub Fits : ℕ → ℕ → Type 0
Fits zero v = v ≡ 0
Fits (suc n) v = Fits n (v / 256)

load-bytes_of :
    (n a v : ℕ) (m : Memory)
    → Fits n v
    → ((i : ℕ) → i < n → m (a + i) ≡ get_or (bytes_of n v) i 0)
    → load n a m ≡ v
unfolding load bytes_of
load-bytes_of zero a v m f h = sym f
load-bytes_of (suc n) a v m f h =
    let here : a + 0 ≡ a = omega arith in
    let first : m a ≡ v % 256 = subst (λ x. m x ≡ v % 256) here (h 0 (omega arith)) in
    let next = λ (i : ℕ) (lt : i < n). a_next i lt in
    omega (arith, first, load-bytes_of n (a + 1) (v / 256) m f next)
  where
    a_next : (i : ℕ) → i < n → m (a + 1 + i) ≡ get_or (bytes_of n (v / 256)) i 0
    a_next i lt =
        let e : a + suc i ≡ a + 1 + i = omega arith in
        subst (λ x. m x ≡ get_or (bytes_of n (v / 256)) i 0) e (h (suc i) (omega (arith, lt)))

-- A field that is stored is read back.
pub load-store_num : (n a v : ℕ) (m : Memory) → Fits n v → load n a (store_num n a v m) ≡ v
unfolding store_num
load-store_num n a v m f = load-bytes_of n a v _ f (λ i lt.
    let back : a + i - a ≡ i = omega arith in
    let inside =
      poke-inside a (a + i) (bytes_of n v) m (omega arith)
        (omega (arith, lt, length-bytes_of n v)) in
    subst (λ x. poke a (bytes_of n v) m (a + i) ≡ get_or (bytes_of n v) x 0) back inside)

pub store_num-Outside : (n a v x : ℕ) (m : Memory) → Outside a n x → store_num n a v m x ≡ m x
unfolding store_num
store_num-Outside n a v x m h =
    poke-Outside a x (bytes_of n v) m (subst (λ k. Outside a k x) (sym (length-bytes_of n v)) h)
