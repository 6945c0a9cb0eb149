-- ===== src/Wfs/Directory/Paths.antt =====
-- What a path names in 01-fuse-filesystem-wfs/wfs.c depends only on the inodes in use, their kinds and the directories.
use systems_programming_port.Prelude.{
  ℕ, ◌≡◌, refl, sym, ap, ◌∙◌, inl, inr, true, none, some, List, [], ◌∷◌, if◌then◌else◌, Bool-cases,
  Bytes, str_eq, ap₂,
}
use systems_programming_port.Wfs.Path.{components, root}
use systems_programming_port.Wfs.Disk.{Disk, is_dir, enoent, retrieve_inode}
use systems_programming_port.Wfs.Data.Slots.{content}
use systems_programming_port.Wfs.File.{Answer, ok, err}
use systems_programming_port.Wfs.Directory.{dentry_to_num, walk, get_inode_from_path}
use systems_programming_port.Wfs.Directory.Entries.{bytes_to_num, dentry_to_num-directory}

-- The same inodes in use, of the same kinds, and directories with the same bytes.
pub record SameTree (d e : Disk) : Type 0 where
  pub used : e.ibm ≡ d.ibm
  pub count : e.num_inodes ≡ d.num_inodes
  pub kinds : (i : ℕ) → (e.inodes i).kind ≡ (d.inodes i).kind
  pub dirs :
      (i : ℕ)
      → is_dir (d.inodes i).kind ≡ true
      → ((e.inodes i).size ≡ (d.inodes i).size) × ((x : ℕ) → content e i x ≡ content d i x)

module _ (d e : Disk) (same : SameTree d e) where
  dentry_to_num-SameTree :
      (name : Bytes) (ino : ℕ) → dentry_to_num name ino e ≡ dentry_to_num name ino d
  unfolding dentry_to_num
  dentry_to_num-SameTree name ino = elim (Bool-cases (is_dir (d.inodes ino).kind)) [
    | inl dir ↦
        let (size, bytes) = same.dirs ino dir in
        let there = dentry_to_num-directory name ino e (ap is_dir (same.kinds ino) ∙ dir) in
        let here = dentry_to_num-directory name ino d dir in
        there ∙ (ap₂ (bytes_to_num name) (λ i x. bytes x i) size ∙ sym here)
    | inr file ↦ rw (same.kinds ino, file) refl
  ]

  retrieve_inode-SameTree : (ino : ℕ) → retrieve_inode ino e ≡ retrieve_inode ino d
  unfolding retrieve_inode
  retrieve_inode-SameTree ino = rw (same.used, same.count) refl

  walk-SameTree : (comps : List Bytes) (cur : ℕ) → walk comps cur e ≡ walk comps cur d
  unfolding walk
  walk-SameTree [] cur = refl
  walk-SameTree (comp ∷ comps) cur = λ i.
      elim (dentry_to_num-SameTree comp cur i) as (λ x. Answer ℕ) [
        | err x ↦ err x
        | ok child ↦ elim (retrieve_inode-SameTree child i) as (λ x. Answer ℕ) [
          | none ↦ err enoent
          | some next ↦ walk-SameTree comps next i
        ]
      ]

  pub get_inode_from_path-SameTree :
      (path : Bytes) → get_inode_from_path path e ≡ get_inode_from_path path d
  unfolding get_inode_from_path
  get_inode_from_path-SameTree path = λ i. elim (retrieve_inode-SameTree 0 i) as (λ x. Answer ℕ) [
    | none ↦ err enoent
    | some cur ↦ if str_eq path root then ok cur else walk-SameTree (components path) cur i
  ]
