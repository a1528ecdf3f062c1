-- ===== src/Files/WriteRead.antt =====
-- ext2/file.c: a write through a descriptor, a seek back, and a read.
use native.Mathlib.Nat.{mul-le-mul_right}
use cute.Base.{
  ℕ, ◌+◌, ◌-◌, ◌*◌, ◌/◌, ◌≤◌, ◌<◌, ◌≡◌, refl, sym, ap, subst, ◌∙◌, true, not, ◌&&◌, List, ltb, leb,
  ◌==◌, length, update_same, Outcome, ok, ◌>>=◌, Returns, arith,
}
use cute.Ext2.Volume.{Volume, Ret, done, has_type, s_ifreg, inode_ok}
use cute.Ext2.Content.{has_content, file_read}
use cute.Ext2.Content.Bytes.{Mapped}
use cute.Ext2.Content.Written.{Written}
use cute.Ext2.Content.RoundTrip.{file_write-Written}
use cute.Files.{File, Process, o_rdonly, o_wronly, has_flag, set_vol, set_file, sys_lseek}
use cute.Files.Io.{advance, sys_read, sys_write}
use cute.Files.Descriptors.{IsOpen, sys_lseek-set, sys_read-open, sys_write-open}

inode_ok-Written :
    {v w : Volume} {inum : ℕ} {blocks : ℕ → ℕ} {n offset : ℕ} {buf : List ℕ} (i : ℕ)
    → Written v w inum blocks n offset buf
    → inode_ok w i ≡ inode_ok v i
unfolding inode_ok
inode_ok-Written {v} {w} i p =
    let test =
      λ (groups per count : ℕ). not (i == 0) && (ltb ((i - 1) / per) groups && leb i count) in
    ap (λ sb. test w.blockgroups_count sb.inodes_per_group sb.inodes_count) p.same_sb
    ∙ ap (λ g. test g v.sb.inodes_per_group v.sb.inodes_count) p.same_groups

-- The descriptor is still open after its file has moved, on a volume that keeps the inode.
IsOpen-moved :
    (s : Process) (w : Volume) (fd file : ℕ) (f : File)
    → IsOpen s fd file
    → f.inum ≡ (s.files file).inum
    → inode_ok w (s.files file).inum ≡ true
    → (w.inodes (s.files file).inum).mode ≡ (s.vol.inodes (s.files file).inum).mode
    → IsOpen (set_file (set_vol s w) file f) fd file
IsOpen-moved s w fd file f o same found mode =
    let e = sym (ap (λ g. g.inum) (update_same s.files file f) ∙ same) in
    record {
      lookup = o.lookup;
      not_null = o.not_null;
      inum_pos = subst (λ i. 0 < i) e o.inum_pos;
      inode = subst (λ i. inode_ok w i ≡ true) e found;
      regular =
          subst (λ i. has_type s_ifreg (w.inodes i).mode ≡ true) e
            (subst (λ m. has_type s_ifreg m ≡ true) (sym mode) o.regular);
    }

content_of_regular :
    (s : Process) (fd file : ℕ)
    → IsOpen s fd file
    → has_content (s.vol.inodes (s.files file).inum) ≡ true
content_of_regular s fd file o = rw o.regular

-- The three calls of a process that writes `buf`, seeks back to where it began, and reads it.
abbrev pub write_seek_read : Process → ℕ → List ℕ → ℕ → Outcome (Process × Ret (List ℕ))
write_seek_read s fd buf offset =
    sys_write s fd buf >>= λ w. sys_lseek (w.0) fd offset 0 >>= λ l. sys_read (l.0) fd (length buf)

-- Through a descriptor that is open for reading and writing on a regular file, with the bytes from
-- its offset on within the file's first `n` blocks, which are direct blocks of at most 4096 bytes
-- that the volume has for this file alone: `sys_write` of some bytes, then `sys_lseek` back to
-- where it began, then `sys_read` of as many bytes return, and the bytes read are those written.
pub sys_write-sys_read :
    (s : Process) (fd file n : ℕ) (buf : List ℕ)
    → IsOpen s fd file
    → has_flag (s.files file).flags o_rdonly ≡ true
    → has_flag (s.files file).flags o_wronly ≡ true
    → Mapped s.vol (s.vol.inodes (s.files file).inum).blocks n
    → 0 < length buf
    → (s.files file).offset + length buf ≤ n * s.vol.block_size
    → Returns (λ r. r.1 ≡ done buf) (write_seek_read s fd buf (s.files file).offset)
unfolding advance
sys_write-sys_read s fd file n buf o rd wr m pos h =
    let f = s.files file in
    let ((w, r), e, (ret, p, back)) =
      file_write-Written s.vol f.inum n f.offset buf (content_of_regular s fd file o) m pos h in
    let grown : f.offset + length buf ≤ (w.inodes f.inum).size_low = ground (arith, p.size) in
    let direct = m.direct in
    let area : n * s.vol.block_size ≤ 12 * s.vol.block_size =
      mul-le-mul_right s.vol.block_size direct in
    let f1 : File = record f { offset = f.offset + length buf } in
    let s1 = set_file (set_vol s w) file f1 in
    let o1 = IsOpen-moved s w fd file f1 o refl (inode_ok-Written f.inum p ∙ o.inode) p.same_mode in
    let f2 : File = record (s1.files file) { offset = f.offset } in
    let s2 = set_file s1 file f2 in
    let o2 = IsOpen-moved s1 w fd file f2 o1 refl o1.inode refl in
    let back_at : s2.files file ≡ f =
      update_same s1.files file f2
      ∙ ap {B = File} (λ (g : File). record g { offset = f.offset })
          (update_same s.files file f1) in
    let wrote =
      sys_write-open s fd file (length buf) buf w o wr (e ∙ ap (λ q. ok (w, q)) ret) grown in
    let sought = sys_lseek-set s1 fd file f.offset o1 (omega (arith, m.size_small)) in
    let reads =
      sys_read-open s2 fd file (length buf) buf o2
        (subst (λ g. has_flag g.flags o_rdonly ≡ true) (sym back_at) rd)
        (subst (λ g. file_read w (w.inodes g.inum) g.offset (length buf) ≡ ok buf) (sym back_at)
          back)
        (subst (λ g. g.offset + length buf ≤ (w.inodes g.inum).size_low) (sym back_at) grown) in
    ((advance s2 file (length buf), done buf), rw (wrote, sought) reads, refl)
