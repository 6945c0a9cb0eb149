-- ===== src/Wfs/Mkfs/Layout.antt =====
-- What 01-fuse-filesystem-wfs/mkfs.c lays out is a filesystem that wfs.c can serve.
use systems_programming_port.Prelude.{
  ℕ, ◌+◌, ◌-◌, ◌*◌, ◌/◌, ◌%◌, ◌^◌, ◌≤◌, ◌<◌, ◌≡◌, refl, ◌≢◌, inl, inr, true, Option, none, some,
  arith, ltb, ◌==◌, Bool-cases, str_eq, ==→eq, ==→ne, ltb→lt, ltb→ge, lt→ltb,
}
use systems_programming_port.Prelude.{subst, sym}
use systems_programming_port.Wfs.Bitmap.{bitmap_test}
use systems_programming_port.Wfs.Disk.{Disk, Env, is_dir, block_size}
use systems_programming_port.Wfs.Data.{blocks_of, max_blocks}
use systems_programming_port.Wfs.Data.Slots.{ptr, data_slot, content, Sound}
use systems_programming_port.Wfs.Disk.{retrieve_inode}
use systems_programming_port.Wfs.Path.{root}
use systems_programming_port.Wfs.File.{ok}
use systems_programming_port.Wfs.Directory.{get_inode_from_path}
use systems_programming_port.Wfs.Mkfs.{
  Superblock, layout, roundup, sb_size, setup_sb, fresh_disk, needed, wfs_mkfs,
}

-- The least multiple of a factor that is not below a number.
pub record IsRoundup (num factor r : ℕ) : Type 0 where
  pub multiple : r % factor ≡ 0
  pub above : num ≤ r
  pub near : r < num + factor

roundup-IsRoundup : (num : ℕ) → num + 32 ≤ 2 ^ 31 → IsRoundup num 32 (roundup num 32)
unfolding roundup
roundup-IsRoundup num small = elim (Bool-cases (num % 32 == 0)) [
  | inl t ↦
      let zero_rest : num % 32 ≡ 0 = ==→eq _ _ t in
      rw t (record { multiple = zero_rest; above = omega arith; near = omega arith })
  | inr f ↦
      let rest : num % 32 ≢ 0 = ==→ne _ _ f in
      rw f (record {
        multiple = omega (arith, small);
        above = omega (arith, small);
        near = omega (arith, rest, small);
      })
]

-- The regions follow each other from the superblock on, each large enough for its bits or blocks,
-- the bitmaps in whole words, and all within the image.
pub record FitsImage (sb : Superblock) (sz : ℕ) : Type 0 where
  pub inode_bits : sb.num_inodes ≤ 8 * (sb.d_bitmap_ptr - sb.i_bitmap_ptr)
  pub data_bits : sb.num_data_blocks ≤ 8 * (sb.i_blocks_ptr - sb.d_bitmap_ptr)
  pub words : (sb.d_bitmap_ptr % 4 ≡ 0) × (sb.i_blocks_ptr % 4 ≡ 0)
  pub ordered :
      (sb_size ≤ sb.i_bitmap_ptr)
      × (sb.i_bitmap_ptr ≤ sb.d_bitmap_ptr)
      × (sb.d_bitmap_ptr ≤ sb.i_blocks_ptr)
  pub inode_blocks : sb.i_blocks_ptr + sb.num_inodes * block_size ≤ sb.d_blocks_ptr
  pub inside : sb.d_blocks_ptr + sb.num_data_blocks * block_size < sz

abbrev pub Laid : ℕ → ℕ → ℕ → Option Superblock → Type 0
Laid inodes blocks sz none = sz ≤ needed (layout (roundup inodes 32) (roundup blocks 32))
Laid inodes blocks sz (some sb) =
    IsRoundup inodes 32 sb.num_inodes × IsRoundup blocks 32 sb.num_data_blocks × FitsImage sb sz

-- Below the bounds of the `int`s nothing wraps.
layout_blocks :
    (n k : ℕ)
    → n < 2 ^ 22
    → k < 2 ^ 31
    → (layout n k).d_blocks_ptr ≡ sb_size + n / 8 + k / 8 + n * block_size
layout_blocks n k small few =
    let fits : ltb ((n * block_size) % 2 ^ 32) (2 ^ 31) ≡ true =
      lt→ltb _ _ (omega (arith, small)) in
    rw fits (omega (arith, small, few))

layout-FitsImage :
    (n k sz : ℕ)
    → n < 2 ^ 22
    → k < 2 ^ 31
    → n % 32 ≡ 0
    → k % 32 ≡ 0
    → needed (layout n k) < sz
    → FitsImage (layout n k) sz
layout-FitsImage n k sz small few a b h =
    let at = layout_blocks n k small few in
    record {
      inode_bits = omega (arith, a);
      data_bits = omega (arith, b);
      words = (omega (arith, a), omega (arith, a, b));
      ordered = (omega arith, omega arith, omega arith);
      inode_blocks =
          subst (λ p. sb_size + n / 8 + k / 8 + n * block_size ≤ p) (sym at) (omega arith);
      inside = subst (λ p. p + k * block_size < sz) (sym at) (omega (arith, small, few, h));
    }

-- For at most 2^22 - 32 inodes and 2^31 - 32 blocks, where no `int` overflows, `setup_sb` rounds the counts up to the
-- next multiples of 32 and lays out the regions in order and without overlap within the image, and refuses only an
-- image that is not larger than they need.
pub setup_sb_lem :
    (inodes blocks sz : ℕ)
    → inodes + 32 ≤ 2 ^ 22
    → blocks + 32 ≤ 2 ^ 31
    → Laid inodes blocks sz (setup_sb inodes blocks sz)
unfolding setup_sb
setup_sb_lem inodes blocks sz small few =
    let n = roundup-IsRoundup inodes (omega (arith, small)) in
    let k = roundup-IsRoundup blocks few in
    elim (Bool-cases (ltb (needed (layout (roundup inodes 32) (roundup blocks 32))) sz)) [
      | inr f ↦ rw f (ltb→ge _ _ f)
      | inl t ↦ rw t (
        n,
        k,
        layout-FitsImage (roundup inodes 32) (roundup blocks 32) sz (omega (arith, n.near, small))
            (omega (arith, k.near, few)) n.multiple k.multiple (ltb→lt _ _ t),
      )
    ]

fresh_blocks : (env : Env) (sb : Superblock) (i t : ℕ) → blocks_of (fresh_disk env sb) i t ≡ 0
fresh_blocks env sb i t = elim (Bool-cases (i == 0)) [
  | inl z ↦ rw (z, blocks_of) refl
  | inr nz ↦ rw (nz, blocks_of) refl
]

fresh_ptr : (env : Env) (sb : Superblock) (i t : ℕ) → ptr (fresh_disk env sb) i t ≡ 0
unfolding ptr
fresh_ptr env sb i t =
    rw (fresh_blocks env sb i t, fresh_blocks env sb i 7)
      (elim (Bool-cases (ltb t 8)) [
        | inl near ↦ rw near refl
        | inr far ↦ elim (Bool-cases (ltb t 72)) [
          | inl inside ↦ rw (far, inside) refl
          | inr past ↦ rw (far, past) refl
        ]
      ])

fresh-Sound :
    (env : Env) (sb : Superblock)
    → 0 < sb.d_blocks_ptr
    → sb.d_blocks_ptr + sb.num_data_blocks * block_size < 2 ^ 63
    → Sound (fresh_disk env sb)
fresh-Sound env sb base fits = record {
  based = base;
  fits = fits;
  valid = λ i t nz. absurd (nz (fresh_ptr env sb i t));
  distinct = λ i t i' t' nz e. absurd (nz (fresh_ptr env sb i t));
}

fresh_root :
    (env : Env) (sb : Superblock)
    → 0 < sb.num_inodes
    → get_inode_from_path root (fresh_disk env sb) ≡ ok 0
unfolding get_inode_from_path retrieve_inode bitmap_test str_eq
fresh_root env sb some_inode =
    let inside : ltb 0 sb.num_inodes ≡ true = lt→ltb _ _ some_inode in
    rw (inside, get_inode_from_path, retrieve_inode) refl

-- A new filesystem: sound, with a root that is an empty directory and files of zeros.
abbrev pub Served : ℕ → ℕ → ℕ → Option Disk → Type 0
Served inodes blocks sz none = sz ≤ needed (layout (roundup inodes 32) (roundup blocks 32))
Served inodes blocks sz (some d) =
    Sound d
    × (get_inode_from_path root d ≡ ok 0)
    × (is_dir ((d.inodes 0).kind) ≡ true)
    × ((d.inodes 0).size ≡ 0)
    × ((i x : ℕ) → content d i x ≡ 0)

fresh_content : (env : Env) (sb : Superblock) (i x : ℕ) → content (fresh_disk env sb) i x ≡ 0
unfolding content
fresh_content env sb i x = elim (Bool-cases (ltb (x / block_size) max_blocks)) [
  | inl t ↦ rw (t, fresh_ptr env sb i (data_slot (x / block_size))) refl
  | inr f ↦ rw f refl
]

Served-from :
    (env : Env) (inodes blocks sz : ℕ) (o : Option Superblock)
    → 0 < inodes
    → sz < 2 ^ 63
    → Laid inodes blocks sz o
    → Served inodes blocks sz (elim o [ none ↦ none | some sb ↦ some (fresh_disk env sb) ])
Served-from env inodes blocks sz none pos small h = h
Served-from env inodes blocks sz (some sb) pos small (n, k, f) = (
  fresh-Sound env sb (omega (arith, f.ordered.0, f.ordered.1, f.ordered.2, f.inode_blocks))
      (omega (arith, f.inside, small)),
  fresh_root env sb (omega (arith, n.above, pos)),
  refl,
  refl,
  fresh_content env sb,
)

-- For 1 to 2^22 - 32 inodes, at most 2^31 - 32 blocks and an image below 2^63 bytes, `wfs_mkfs` leaves a sound
-- filesystem in which path "/" leads to inode 0, a directory of size 0, and every byte of a file is 0; it fails only
-- where the image is not larger than the layout needs.
pub wfs_mkfs_lem :
    (env : Env) (inodes blocks sz : ℕ)
    → 0 < inodes
    → inodes + 32 ≤ 2 ^ 22
    → blocks + 32 ≤ 2 ^ 31
    → sz < 2 ^ 63
    → Served inodes blocks sz (wfs_mkfs env inodes blocks sz)
unfolding wfs_mkfs
wfs_mkfs_lem env inodes blocks sz pos small few image =
    Served-from env inodes blocks sz (setup_sb inodes blocks sz) pos image
      (setup_sb_lem inodes blocks sz small few)
