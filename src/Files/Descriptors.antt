-- ===== src/Files/Descriptors.antt =====
-- ext2/file.c: an open descriptor, and a write through it that is read back.
use cute.Base.{
  ℕ, ◌+◌, ◌^◌, ◌%◌, ◌≤◌, ◌<◌, ◌≡◌, ◌≢◌, ◌∙◌, true, false, List, ltb, ◌==◌, length, Outcome, ok,
  arith, lt→ltb, le→leb,
}
use cute.Unrolled.{null, unrolled_lookup}
use cute.Ext2.Volume.{
  Volume, Ret, done, has_type, s_ifreg, s_ifdir, s_ififo, s_ifsock, inode_ok, inode_get, is_type,
}
use cute.Ext2.Content.{file_read, file_write}
use cute.Files.{
  Process, o_rdonly, o_wronly, has_flag, set_vol, set_file, with_file, lseek_base, lseek_to,
  lseek_file, sys_lseek,
}
use cute.Files.Io.{rw_checks, advance, read_file, sys_read, write_done, write_file, sys_write}

-- The descriptor is open on a regular file of the volume.
pub record IsOpen (s : Process) (fd file : ℕ) : Type 0 where
  pub lookup : unrolled_lookup s.fdtable fd ≡ file
  pub not_null : file ≢ null
  pub inum_pos : 0 < (s.files file).inum
  pub inode : inode_ok s.vol (s.files file).inum ≡ true
  pub regular : has_type s_ifreg (s.vol.inodes (s.files file).inum).mode ≡ true

with_file-open :
    {A : Type 0} (s : Process) (fd file : ℕ) (next : ℕ → Outcome (Process × Ret A))
    → IsOpen s fd file
    → with_file s fd next ≡ next file
unfolding with_file
with_file-open s fd file next o =
    let test : (file == null) ≡ false = ground (arith, o.not_null) in rw (o.lookup, test)

inode_get-open :
    (s : Process) (fd file : ℕ)
    → IsOpen s fd file
    → inode_get s.vol (s.files file).inum ≡ ok (s.vol.inodes (s.files file).inum)
unfolding inode_get
inode_get-open s fd file o = rw o.inode

-- A regular file is of no other type.
other_type :
    (mode type : ℕ) → has_type s_ifreg mode ≡ true → type ≢ s_ifreg → has_type type mode ≡ false
other_type mode type h ne = ground arith

is_type-open :
    (s : Process) (fd file type : ℕ)
    → IsOpen s fd file
    → is_type type s.vol (s.files file).inum
      ≡ ok (has_type type (s.vol.inodes (s.files file).inum).mode)
unfolding is_type
is_type-open s fd file type o = rw (inode_get-open s fd file o)

rw_checks-open :
    {A : Type 0} (s : Process) (fd file access : ℕ) (next : Outcome (Process × Ret A))
    → IsOpen s fd file
    → has_flag (s.files file).flags access ≡ true
    → rw_checks s access (s.files file) next ≡ next
unfolding rw_checks
rw_checks-open s fd file access next o flag =
    let mode = (s.vol.inodes (s.files file).inum).mode in
    let dir = is_type-open s fd file s_ifdir o in
    let reg = is_type-open s fd file s_ifreg o in
    let pos = lt→ltb 0 (s.files file).inum o.inum_pos in
    let is_dir = other_type mode s_ifdir o.regular (omega arith) in
    rw (flag, pos, dir, reg, is_dir, o.regular)

-- `lseek(fd, offset, SEEK_SET)` moves to the offset.
pub sys_lseek-set :
    (s : Process) (fd file offset : ℕ)
    → IsOpen s fd file
    → offset < 2 ^ 64
    → sys_lseek s fd offset 0
      ≡ ok (set_file s file (record (s.files file) { offset = offset }), done offset)
unfolding sys_lseek lseek_file lseek_to lseek_base
sys_lseek-set s fd file offset o h =
    let mode = (s.vol.inodes (s.files file).inum).mode in
    let pos = lt→ltb 0 (s.files file).inum o.inum_pos in
    let fifo = is_type-open s fd file s_ififo o in
    let socket = is_type-open s fd file s_ifsock o in
    let no_fifo = other_type mode s_ififo o.regular (omega arith) in
    let no_socket = other_type mode s_ifsock o.regular (omega arith) in
    let got = inode_get-open s fd file o in
    let sum : (0 + offset) % 2 ^ 64 ≡ offset = omega arith in
    let test : ltb offset 0 ≡ false = ground arith in
    with_file-open s fd file (lseek_file s offset 0) o
    ∙ rw (pos, fifo, socket, got, no_fifo, no_socket, sum, test)

pub sys_read-open :
    (s : Process) (fd file count : ℕ) (bytes : List ℕ)
    → IsOpen s fd file
    → has_flag (s.files file).flags o_rdonly ≡ true
    → file_read s.vol (s.vol.inodes (s.files file).inum) (s.files file).offset count ≡ ok bytes
    → (s.files file).offset + length bytes ≤ (s.vol.inodes (s.files file).inum).size_low
    → sys_read s fd count ≡ ok (advance s file (length bytes), done bytes)
unfolding sys_read read_file
sys_read-open s fd file count bytes o flag reads inside =
    let got = inode_get-open s fd file o in
    let test =
      le→leb ((s.files file).offset + length bytes) (s.vol.inodes (s.files file).inum).size_low
        inside in
    with_file-open s fd file (λ f. rw_checks s o_rdonly (s.files f) (read_file s count f)) o
    ∙ rw_checks-open s fd file o_rdonly (read_file s count file) o flag
    ∙ rw (got, reads, test)

pub sys_write-open :
    (s : Process) (fd file n : ℕ) (buf : List ℕ) (w : Volume)
    → IsOpen s fd file
    → has_flag (s.files file).flags o_wronly ≡ true
    → file_write s.vol (s.files file).inum buf (s.files file).offset ≡ ok (w, done n)
    → (s.files file).offset + n ≤ (w.inodes (s.files file).inum).size_low
    → sys_write s fd buf ≡ ok (advance (set_vol s w) file n, done n)
unfolding sys_write write_file write_done
sys_write-open s fd file n buf w o flag writes inside =
    let got = inode_get-open s fd file o in
    let test = le→leb ((s.files file).offset + n) (w.inodes (s.files file).inum).size_low inside in
    with_file-open s fd file (λ f. rw_checks s o_wronly (s.files f) (write_file s buf f)) o
    ∙ rw_checks-open s fd file o_wronly (write_file s buf file) o flag
    ∙ rw (got, writes, test)
