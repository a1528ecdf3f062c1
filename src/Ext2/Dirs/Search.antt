-- ===== src/Ext2/Dirs/Search.antt =====
-- ext2/ext2.c: what the search of `find_dir_entry` returns.
use cute.Base.{
  ℕ, zero, suc, ◌+◌, ◌-◌, ◌*◌, ◌≤◌, ◌<◌, min, ◌≡◌, ◌≢◌, ◌↔◌, refl, inl, inr, Bool, true, false,
  ◌||◌, List, [], ◌∷◌, ltb, ◌==◌, length, length-drop, get_or, take, drop, Outcome, ok, Returns,
  Returns-bind, Bool-cases, ==_iff, arith,
}
use cute.Strings.Compare.{AreBytes, memcmp-Compared}
use cute.Ext2.Volume.{
  Volume, Inode, Ret, done, fail, enoent, eio, dir_entry_size, filename_max, s_ifdir, has_type,
  read_bytes, inode_ok, inode_get, is_type,
}
use cute.Ext2.Content.{has_content, file_read}
use cute.Ext2.Content.Bytes.{byte_at, Mapped, length-read_bytes}
use cute.Ext2.Content.Reads.{file_read-byte_at, area_small}
use cute.Ext2.Dirs.Sound.{EntryIsSound, dir_entry_valid-EntryIsSound}
use cute.Ext2.Dirs.{
  Found, inode_num, record_len, filename_len, filename, dir_entry_valid, same_name, found_or,
  find_entry, find_loop, find_dir_entry,
}

-- The entry is in use and has the name.
abbrev pub HasName : List ℕ → List ℕ → Type 0
HasName d name =
    (inode_num d ≢ 0)
    × (filename_len d ≡ length name)
    × (take (length name) (filename d) ≡ take (length name) name)

-- What a search from an offset on means: `r` for the entry with the name, for the end of the directory,
-- or for an entry that is not sound, whichever comes first in the chain of entries.
pub data Search (v : Volume) (dir : Inode) (name : List ℕ) : ℕ → Ret Found → Type 0 where
  ended : {o : ℕ} → file_read v dir o dir_entry_size ≡ ok [] → Search v dir name o (fail enoent)
  corrupt :
      {o : ℕ} {d : List ℕ}
      → file_read v dir o dir_entry_size ≡ ok d
      → 0 < length d
      → ¬ EntryIsSound v dir d o (length d)
      → Search v dir name o (fail eio)
  hit :
      {o : ℕ} {d : List ℕ}
      → file_read v dir o dir_entry_size ≡ ok d
      → EntryIsSound v dir d o (length d)
      → HasName d name
      → Search v dir name o (done (record { entry = d; at = o }))
  pass :
      {o : ℕ} {d : List ℕ} {r : Ret Found}
      → file_read v dir o dir_entry_size ≡ ok d
      → EntryIsSound v dir d o (length d)
      → ¬ HasName d name
      → Search v dir name (o + record_len d) r
      → Search v dir name o r

AreBytes-drop : (n : ℕ) (xs : List ℕ) → AreBytes xs → AreBytes (drop n xs)
AreBytes-drop zero xs h = h
AreBytes-drop (suc n) [] h = tt
AreBytes-drop (suc n) (x ∷ xs) (a, h) = AreBytes-drop n xs h

-- The comparison returns, and it is true for the entries with the name.
same_name_lem :
    (d name : List ℕ)
    → AreBytes d
    → AreBytes name
    → 8 + filename_len d ≤ length d
    → Returns (λ b. (b ≡ true) ↔ HasName d name) (same_name d name)
same_name_lem d name hd hn fits = elim (Bool-cases (inode_num d == 0)) [
  | inl z ↦
      let unused : inode_num d ≡ 0 = ground arith in
      rw z (false, refl, ((λ e. absurd cc), (λ h. absurd (h.0 unused))))
  | inr z ↦ elim (Bool-cases (filename_len d == length name)) [
    | inl e ↦
        let used : inode_num d ≢ 0 = ground arith in
        let same_len : filename_len d ≡ length name = ground arith in
        let (r, q, (_, (to, from))) =
          memcmp-Compared (filename d) name (length name) (AreBytes-drop 8 d hd) hn
            (omega (arith, length-drop 8 d)) (omega arith) in
        let test : ((r == 0) ≡ true) ↔ (r ≡ 0) = ==_iff r 0 in
        rw (z, e, q)
          (r == 0, refl, ((λ t. (used, same_len, to (test.0 t))), (λ h. test.1 (from h.2))))
    | inr e ↦
        let other : filename_len d ≢ length name = ground arith in
        rw (z, e) (false, refl, ((λ t. absurd cc), (λ h. absurd (other h.1))))
  ]
]

get_or-AreBytes : (xs : List ℕ) (i : ℕ) → AreBytes xs → get_or xs i 0 < 256
get_or-AreBytes [] i h = omega arith
get_or-AreBytes (x ∷ xs) zero (a, h) = a
get_or-AreBytes (x ∷ xs) (suc i) (a, h) = get_or-AreBytes xs i h

read_bytes-AreBytes : (f : ℕ → ℕ) (i n : ℕ) → ((k : ℕ) → f k < 256) → AreBytes (read_bytes f i n)
read_bytes-AreBytes f i zero h = tt
read_bytes-AreBytes f i (suc n) h = (h i, read_bytes-AreBytes f (suc i) n h)

-- One turn of the search.
find_entry-Search :
    (v : Volume) (dir : Inode) (name : List ℕ) (offset : ℕ) (next : Outcome (Ret Found))
    (d : List ℕ)
    → file_read v dir offset dir_entry_size ≡ ok d
    → AreBytes d
    → AreBytes name
    → (EntryIsSound v dir d offset (length d) → 8 + filename_len d ≤ length d)
    → (EntryIsSound v dir d offset (length d)
        → Returns (Search v dir name (offset + record_len d)) next)
    → Returns (Search v dir name offset) (find_entry v dir name offset next d)
unfolding find_entry
find_entry-Search v dir name offset next [] read hd hn fits rest = (fail enoent, refl, ended read)
find_entry-Search v dir name offset next (b ∷ bytes) read hd hn fits rest =
    let d : List ℕ = b ∷ bytes in
    let sound = dir_entry_valid-EntryIsSound v dir d offset (length d) in
    elim (Bool-cases (dir_entry_valid v dir d offset (length d))) [
      | inl e ↦ rw e (
          Returns-bind (same_name d name) (found_or (record { entry = d; at = offset }) next)
            (same_name_lem d name hd hn (fits (sound.0 e)))
            (found_or-Search v dir name offset next d read (sound.0 e) (rest (sound.0 e))))
      | inr e ↦
          rw e (fail eio, refl, corrupt read (omega arith) (λ s. let yes = sound.1 s in absurd cc))
    ]
  where
    found_or-Search :
        (v : Volume) (dir : Inode) (name : List ℕ) (offset : ℕ) (next : Outcome (Ret Found))
        (d : List ℕ)
        → file_read v dir offset dir_entry_size ≡ ok d
        → EntryIsSound v dir d offset (length d)
        → Returns (Search v dir name (offset + record_len d)) next
        → (same : Bool) → ((same ≡ true) ↔ HasName d name)
        → Returns
            (Search v dir name offset)
            (found_or (record { entry = d; at = offset }) next same)
    found_or-Search v dir name offset next d read e rest true h =
        (done (record { entry = d; at = offset }), refl, hit read e (h.0 refl))
    found_or-Search v dir name offset next d read e (r, q, s) false h =
        (r, q, pass read e (λ m. absurd (let no = h.1 m in cc)) s)

module _ (v : Volume) (dir : Inode) (n : ℕ) (content : has_content dir ≡ true)
    (m : Mapped v dir.blocks n) (whole : dir.size_low ≤ n * v.block_size)
    (bytes : (k : ℕ) → byte_at v dir.blocks k < 256) where
  -- The loop returns what the search means, with as much fuel as the bytes that are left, and one.
  pub find_loop-Search :
      (fuel : ℕ) (name : List ℕ) (offset : ℕ)
      → AreBytes name
      → offset ≤ dir.size_low
      → dir.size_low < offset + fuel
      → Returns (Search v dir name offset) (find_loop fuel v dir name offset)
  unfolding find_loop
  find_loop-Search zero name offset hn a b = absurd (omega arith)
  find_loop-Search (suc fuel) name offset hn a b =
      let (_, small) = area_small v dir.blocks n m in
      let len = min dir_entry_size (dir.size_low - offset) in
      let d = read_bytes (byte_at v dir.blocks) offset len in
      let read = file_read-byte_at v dir n offset dir_entry_size content m whole (omega arith) in
      let hd = read_bytes-AreBytes (byte_at v dir.blocks) offset len bytes in
      let size : length d ≡ len = length-read_bytes (byte_at v dir.blocks) offset len in
      let name_len = get_or-AreBytes d 6 hd in
      rw read (
        find_entry-Search v dir name offset (find_loop fuel v dir name (offset + record_len d)) d
          read hd hn (λ e. let room = e.name_fits in let ends = e.in_directory in omega arith)
          (λ e.
            let long = e.long_enough in
            let ends = e.in_directory in
            find_loop-Search fuel name (offset + record_len d) hn (omega arith) (omega arith)))

-- In a directory of the volume, with all its blocks mapped as direct blocks of at most 4096 bytes,
-- `find_dir_entry` of a name of 1 to 255 bytes returns what the search means from the start of the
-- directory on: the first entry in the chain that is in use and has the name, with its place, or
-- that there is none, or that an entry is not sound.
pub find_dir_entry-Search :
    (v : Volume) (inum n : ℕ) (name : List ℕ)
    → inode_ok v inum ≡ true
    → has_type s_ifdir (v.inodes inum).mode ≡ true
    → Mapped v (v.inodes inum).blocks n
    → (v.inodes inum).size_low ≤ n * v.block_size
    → ((k : ℕ) → byte_at v (v.inodes inum).blocks k < 256)
    → AreBytes name
    → 1 ≤ length name
    → length name ≤ 255
    → Returns (Search v (v.inodes inum) name 0) (find_dir_entry v inum name)
unfolding find_dir_entry is_type inode_get
find_dir_entry-Search v inum n name found dir m whole bytes hn pos short =
    let inode = v.inodes inum in
    let content : has_content inode ≡ true = ground (arith, dir) in
    let test : (length name == 0 || ltb filename_max (length name)) ≡ false = ground arith in
    rw (found, dir, test)
      (find_loop-Search v inode n content m whole bytes (suc inode.size_low) name 0 hn (omega arith)
        (omega arith))
