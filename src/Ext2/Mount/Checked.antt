-- ===== src/Ext2/Mount/Checked.antt =====
-- ext2/ext2.c: what a volume that `ext2_init` has mounted keeps to.
use cute.Base.{
  ℕ, zero, suc, ◌+◌, ◌-◌, ◌*◌, ◌%◌, ◌^◌, ◌≤◌, ◌<◌, ◌≡◌, refl, sym, ap, subst, ◌∙◌, ◌⊎◌, ◌≢◌, ◌↔◌,
  inl, inr, Bool, true, false, not, ◌&&◌, ◌||◌, none, some, [], ◌∷◌, ltb, leb, ◌==◌, if◌then◌else◌,
  Outcome, ok, panic, ◌>>=◌, ◌>>◌, assert, leb→le, ==_iff, Bool-cases, ok-injective, arith,
}
use cute.Ext2.Volume.{
  Volume, SuperBlock, Inode, Ret, done, fail, root_inode, s_ifdir, has_type, inode_ok, inode_get,
  is_type,
}
use cute.Ext2.Names.{name_i}
use cute.Ext2.Mount.Sound.{
  GroupIsSound, SuperBlockIsSound, RootIsSound, IsMounted, described, table_end,
}
use cute.Ext2.Mount.{
  min_fs_size, superblock_magic, max_block_len, block_len, inodetbl_blocks, superblock_checks,
  in_group, group_first, group_last, group_checks, groups_checks, is_root, root_checks, mount,
  ext2_init,
}

-- A call that returned went past its assertion.
assert-passed :
    {A : Type 0} (b : Bool) (rest : Outcome A) (a : A)
    → (assert b >> rest) ≡ ok a
    → (b ≡ true) × (rest ≡ ok a)
assert-passed true rest a h = (refl, h)
assert-passed false rest a h = absurd cc

bind-passed :
    {A B : Type 0} (o : Outcome A) (f : A → Outcome B) (b : B)
    → (o >>= f) ≡ ok b
    → (a : A) × (o ≡ ok a) × (f a ≡ ok b)
bind-passed (ok a) f b h = (a, refl, h)
bind-passed panic f b h = absurd cc

&&-le : (a b c : ℕ) → (leb a b && leb b c) ≡ true → (a ≤ b) × (b ≤ c)
&&-le a b c h = ground arith

assert-ended : (b : Bool) (u : Unit {0}) → assert b ≡ ok u → b ≡ true
assert-ended true u h = refl
assert-ended false u h = absurd cc

group_checks-GroupIsSound :
    (v : Volume) (i : ℕ) (u : Unit {0}) → group_checks v i ≡ ok u → GroupIsSound v i
unfolding group_checks
group_checks-GroupIsSound v i u h =
    let g = v.bgd i in
    let (a, h1) = assert-passed (in_group v i g.block_bitmap) _ u h in
    let (b, h2) = assert-passed (in_group v i g.inode_bitmap) _ u h1 in
    let (c, h3) = assert-passed (in_group v i g.inode_table) _ u h2 in
    let (t, h4) =
      assert-passed (in_group v i ((g.inode_table + inodetbl_blocks v + (2 ^ 64 - 1)) % 2 ^ 64)) _ u
        h3 in
    let (d, h5) = assert-passed (leb g.free_blocks v.sb.blocks_per_group) _ u h4 in
    let (e, h6) = assert-passed (leb g.free_inodes v.sb.inodes_per_group) _ u h5 in
    let f = assert-ended (leb g.used_dirs v.sb.inodes_per_group) u h6 in
    record {
      block_bitmap_in = &&-le (group_first v i) g.block_bitmap (group_last v i) a;
      inode_bitmap_in = &&-le (group_first v i) g.inode_bitmap (group_last v i) b;
      inode_table_in = &&-le (group_first v i) g.inode_table (group_last v i) c;
      table_end_in = &&-le (group_first v i) (table_end v i) (group_last v i) t;
      free_blocks_le = leb→le g.free_blocks v.sb.blocks_per_group d;
      free_inodes_le = leb→le g.free_inodes v.sb.inodes_per_group e;
      used_dirs_le = leb→le g.used_dirs v.sb.inodes_per_group f;
    }

groups_checks-GroupIsSound :
    (v : Volume) (n i : ℕ) (u : Unit {0})
    → groups_checks v n i ≡ ok u
    → (j : ℕ) → i ≤ j
    → j < i + n
    → GroupIsSound v j
unfolding groups_checks
groups_checks-GroupIsSound v zero i u h j a b = absurd (omega arith)
groups_checks-GroupIsSound v (suc n) i u h j a b =
    let (w, here, later) = bind-passed (group_checks v i) (λ _. groups_checks v n (suc i)) u h in
    let split : (j ≡ i) ⊎ (suc i ≤ j) = omega arith in
    elim split [
      | inl e ↦ subst (GroupIsSound v) (sym e) (group_checks-GroupIsSound v i w here)
      | inr lt ↦ groups_checks-GroupIsSound v n (suc i) u later j lt (omega arith)
    ]

pos_of_test : (n : ℕ) → not (n == 0) ≡ true → n ≢ 0
pos_of_test n h = ground arith

pub test_of_pos : (n : ℕ) → n ≢ 0 → not (n == 0) ≡ true
test_of_pos n h = ground arith

superblock_checks-SuperBlockIsSound :
    (sb : SuperBlock) (size len : ℕ) (u : Unit {0})
    → superblock_checks sb size len ≡ ok u
    → SuperBlockIsSound sb size len
unfolding superblock_checks
superblock_checks-SuperBlockIsSound sb size len u h =
    let (a, h1) = assert-passed (leb (sb.blocks_count * size) len) _ u h in
    let (m, h2) = assert-passed (sb.magic_signature == superblock_magic) _ u h1 in
    let (v, h3) = assert-passed (sb.revision_level == 1) _ u h2 in
    let (w, h4) = assert-passed (sb.state == 1) _ u h3 in
    let (x, h5) = assert-passed (sb.inode_size % 2 == 0) _ u h4 in
    let (y, h6) = assert-passed (leb sb.inode_size size) _ u h5 in
    let (z, h7) = assert-passed (size == block_len sb.log_fragment_size) _ u h6 in
    let (b, h8) = assert-passed (leb size max_block_len) _ u h7 in
    let (c, h9) = assert-passed (leb sb.blocks_per_group (size * 8)) _ u h8 in
    let (d, h10) = assert-passed (leb sb.inodes_per_group (size * 8)) _ u h9 in
    let (e, h11) = assert-passed (not (sb.blocks_per_group == 0)) _ u h10 in
    let f = assert-ended (not (sb.inodes_per_group == 0)) u h11 in
    record {
      in_ramdisk = leb→le _ _ a;
      magic = (==_iff _ _).0 m;
      revision = (==_iff _ _).0 v;
      clean = (==_iff _ _).0 w;
      inode_size_even = (==_iff _ _).0 x;
      inode_size_le = leb→le _ _ y;
      fragments = (==_iff _ _).0 z;
      block_size_small = leb→le _ _ b;
      blocks_fit = leb→le _ _ c;
      inodes_fit = leb→le _ _ d;
      blocks_per_group_pos = pos_of_test sb.blocks_per_group e;
      inodes_per_group_pos = pos_of_test sb.inodes_per_group f;
    }

is_root_lem : (r : Ret ℕ) → is_root r ≡ true → r ≡ done root_inode
unfolding is_root
is_root_lem (done inum) h = ap done ((==_iff inum root_inode).0 h)
is_root_lem (fail e) h = absurd cc

is_type-returned :
    (type : ℕ) (v : Volume) (inum : ℕ) (b : Bool)
    → is_type type v inum ≡ ok b
    → has_type type (v.inodes inum).mode ≡ b
unfolding is_type inode_get
is_type-returned type v inum b h = elim (Bool-cases (inode_ok v inum)) [
  | inl e ↦ ok-injective (
      ap (λ t. (if t then ok (v.inodes inum) else panic) >>= λ i. ok (has_type type i.mode)) (sym e)
      ∙ h)
  | inr e ↦
      let no : panic ≡ ok b =
        ap (λ t. (if t then ok (v.inodes inum) else panic) >>= λ i. ok (has_type type i.mode))
          (sym e)
        ∙ h in
      absurd cc
]

inode_get-returned :
    (v : Volume) (inum : ℕ) (i : Inode)
    → inode_get v inum ≡ ok i
    → (inode_ok v inum ≡ true) × (v.inodes inum ≡ i)
unfolding inode_get
inode_get-returned v inum i h = elim (Bool-cases (inode_ok v inum)) [
  | inl e ↦ (e, ok-injective (ap (λ t. if t then ok (v.inodes inum) else panic) (sym e) ∙ h))
  | inr e ↦
      let no : panic ≡ ok i = ap (λ t. if t then ok (v.inodes inum) else panic) (sym e) ∙ h in
      absurd cc
]

filled_tests : (a b : ℕ) → not (a == 0 || b == 0) ≡ true → (a ≢ 0) × (b ≢ 0)
filled_tests a b h = ground arith

pub tests_filled : (a b : ℕ) → a ≢ 0 → b ≢ 0 → not (a == 0 || b == 0) ≡ true
tests_filled a b h k = ground arith

pub group_size_iff :
    (groups size all : ℕ)
    → (not (ltb 1 groups && ltb all size) ≡ true) ↔ ((groups ≤ 1) ⊎ (size ≤ all))
group_size_iff groups size all = ((λ h. ground arith), (λ h. ground arith))

root_checks-RootIsSound : (v : Volume) (u : Unit {0}) → root_checks v ≡ ok u → RootIsSound v
unfolding root_checks
root_checks-RootIsSound v u h =
    let (root, got, h1) = bind-passed (inode_get v root_inode) _ u h in
    let (dir, e, h2) = bind-passed (is_type s_ifdir v root_inode) _ u h1 in
    let (d, h3) = assert-passed dir _ u h2 in
    let (filled, h4) = assert-passed (not (root.i512_blocks == 0 || root.size_low == 0)) _ u h3 in
    let (r, e1, h5) = bind-passed (name_i v 0 (47 ∷ 46 ∷ [])) _ u h4 in
    let (a, h6) = assert-passed (is_root r) _ u h5 in
    let (q, e2, h7) = bind-passed (name_i v 0 (47 ∷ 46 ∷ 46 ∷ [])) _ u h6 in
    let b = assert-ended (is_root q) u h7 in
    let (found, same) = inode_get-returned v root_inode root got in
    let (blocks, bytes) = filled_tests root.i512_blocks root.size_low filled in
    record {
      found = found;
      directory = is_type-returned s_ifdir v root_inode dir e ∙ d;
      content = subst (λ (i : Inode). i.i512_blocks ≢ 0) (sym same) blocks;
      size = subst (λ (i : Inode). i.size_low ≢ 0) (sym same) bytes;
      dot = e1 ∙ ap ok (is_root_lem r a);
      dot_dot = e2 ∙ ap ok (is_root_lem q b);
    }

mount-IsMounted :
    (len : ℕ) (v w : Volume) → mount len v ≡ ok w → (described v ≡ w) × IsMounted len w
unfolding mount
mount-IsMounted len v w h =
    let size = block_len v.sb.log_block_size in
    let x = described v in
    let (u, e, h1) = bind-passed (superblock_checks v.sb size len) _ w h in
    let (a, h2) =
      assert-passed (not (ltb 1 x.blockgroups_count && ltb x.sb.blocks_count x.sb.blocks_per_group))
        _ w h1 in
    let (b, h3) = assert-passed (leb x.sb.inodes_per_group x.sb.inodes_count) _ w h2 in
    let (u', g, h4) = bind-passed (groups_checks x x.blockgroups_count 0) _ w h3 in
    let (u'', r, h5) = bind-passed (root_checks x) _ w h4 in
    (
      ok-injective h5,
      subst (IsMounted len) (ok-injective h5) (record {
        superblock = superblock_checks-SuperBlockIsSound v.sb size len u e;
        group_size =
            (group_size_iff x.blockgroups_count x.sb.blocks_per_group x.sb.blocks_count).0 a;
        inodes_in_group = leb→le x.sb.inodes_per_group x.sb.inodes_count b;
        groups = λ i lt.
            groups_checks-GroupIsSound x x.blockgroups_count 0 u' g i (omega arith) (omega arith);
        root = root_checks-RootIsSound x u'' r;
      }),
    )

-- What holds where `ext2_init` mounts a volume.
pub ext2_init-checked :
    (ramdisk_len : ℕ) (v w : Volume)
    → ext2_init ramdisk_len v ≡ ok (some w)
    → (min_fs_size ≤ ramdisk_len) × (described v ≡ w) × IsMounted ramdisk_len w
unfolding ext2_init
ext2_init-checked len v w h = elim (Bool-cases (len == 0 || ltb len min_fs_size)) [
  | inl e ↦
      let no : ok none ≡ ok (some w) =
        ap (λ t. if t then ok none else (mount len v >>= λ x. ok (some x))) (sym e) ∙ h in
      absurd cc
  | inr e ↦
      let mounted : (mount len v >>= λ x. ok (some x)) ≡ ok (some w) =
        ap (λ t. if t then ok none else (mount len v >>= λ x. ok (some x))) (sym e) ∙ h in
      let (x, m, f) = bind-passed (mount len v) (λ y. ok (some y)) (some w) mounted in
      let same : x ≡ w = (let inside = ok-injective f in cc) in
      let large : min_fs_size ≤ len = ground arith in
      let (is, sound) = mount-IsMounted len v x m in
      (large, is ∙ same, subst (IsMounted len) same sound)
]
