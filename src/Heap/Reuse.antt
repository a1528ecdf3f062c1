-- ===== src/Heap/Reuse.antt =====
-- mm/kmalloc.c: a buffer that is given back, and what the next allocation makes of it.
use mathlib.Core.Path.{fun_ext}
use cute.Base.{
  ℕ, ◌+◌, ◌-◌, ◌%◌, ◌^◌, ◌≤◌, ◌<◌, ◌≡◌, ◌≢◌, refl, sym, ap, ◌∙◌, Bool, true, false, update,
  update_same, update_ne, update-elim, ◌==◌, if◌then◌else◌, Outcome, ok, panic, ◌>>=◌, Returns,
  le→leb, arith,
}
use cute.Pages.{addr_to_page}
use cute.Heap.{
  Bucket, Heap, freebuf_sig, allocbuf_sig, sign_buf, set_word, set_bucket, next_buf, bucket_alloc,
  kfree,
}

-- The address is that of a buffer in use, of the bucket `idx`.
pub record IsAllocated (h : Heap) (buf idx page : ℕ) : Type 0 where
  pub page_of : addr_to_page h.pages buf ≡ ok page
  pub page_taken : (h.pages.page page).free ≡ false
  pub in_bucket : h.in_bucket page ≡ true
  pub bucket : h.bucket_idx page ≡ idx
  pub idx_le : idx ≤ 12
  pub aligned : buf % 2 ^ idx ≡ 0
  pub not_null : buf ≢ 0
  pub not_free : h.sig buf ≢ freebuf_sig
  pub counted : (h.kmembuckets idx).totalfree < 2 ^ 32

-- The heap after the buffer was given back to its bucket.
abbrev given_back : Heap → ℕ → ℕ → Heap
given_back h buf idx =
    let bucket = h.kmembuckets idx in
    set_bucket (set_word (sign_buf h buf freebuf_sig) buf bucket.head) idx
      (record bucket { head = buf; totalfree = (bucket.totalfree + 1) % 2 ^ 32 })

kfree-given_back :
    (h : Heap) (buf idx page : ℕ)
    → IsAllocated h buf idx page
    → kfree h buf ≡ ok (given_back h buf idx)
unfolding kfree
kfree-given_back h buf idx page a =
    let aligned : (buf % 2 ^ h.bucket_idx page == 0) ≡ true =
      ground (arith, ap (λ i. buf % 2 ^ i) a.bucket ∙ a.aligned) in
    let used : (h.sig buf == freebuf_sig) ≡ false = ground (arith, a.not_free) in
    rw (a.page_of, a.page_taken, a.in_bucket, aligned, used)
      (ap (λ i. ok (given_back h buf i)) a.bucket)

-- Giving a buffer in use back, and then the same address again, stops the kernel.
pub kfree-kfree :
    (h : Heap) (buf idx page : ℕ)
    → IsAllocated h buf idx page
    → (kfree h buf >>= λ h1. kfree h1 buf) ≡ panic
unfolding kfree
kfree-kfree h buf idx page a =
    let back = given_back h buf idx in
    let aligned : (buf % 2 ^ h.bucket_idx page == 0) ≡ true =
      ground (arith, ap (λ i. buf % 2 ^ i) a.bucket ∙ a.aligned) in
    let free : (back.sig buf == freebuf_sig) ≡ true =
      ap (λ w. w == freebuf_sig) (update_same h.sig buf freebuf_sig) in
    let again : kfree back buf ≡ panic = rw (a.page_of, a.page_taken, a.in_bucket, aligned, free) in
    ap (λ o. o >>= λ h1. kfree h1 buf) (kfree-given_back h buf idx page a) ∙ again

-- The same buffer, with the buckets, the pointers of other buffers and the signatures as before.
pub record Reused (h : Heap) (buf : ℕ) (r : Heap × ℕ) : Type 0 where
  pub same_buf : r.1 ≡ buf
  pub same_buckets : (j : ℕ) → (r.0).kmembuckets j ≡ h.kmembuckets j
  pub signed : (r.0).sig buf ≡ allocbuf_sig
  pub other_words : (b : ℕ) → b ≢ buf → (r.0).word b ≡ h.word b
  pub other_sigs : (b : ℕ) → b ≢ buf → (r.0).sig b ≡ h.sig b
  pub same_pages : (r.0).pages ≡ h.pages

-- The heap after the head of a bucket's list was taken.
abbrev taken_head : Heap → ℕ → Heap
taken_head h idx =
    let bucket = h.kmembuckets idx in
    sign_buf
      (set_bucket h idx (record bucket {
        head = h.word bucket.head;
        totalfree = (bucket.totalfree + (2 ^ 32 - 1)) % 2 ^ 32;
      }))
      bucket.head allocbuf_sig

-- Two writes to one bucket are the last one.
twice : (f : ℕ → Bucket) (i : ℕ) (a b : Bucket) → update (update f i a) i b ≡ update f i b
twice f i a b = fun_ext (λ j. update_twice j (j == i))
  where
    update_twice :
        (j : ℕ) (t : Bool) → (if t then b else (if t then a else f j)) ≡ (if t then b else f j)
    update_twice j true = refl
    update_twice j false = refl

next_buf-head :
    (h : Heap) (idx : ℕ)
    → (h.kmembuckets idx).head ≢ 0
    → next_buf h idx
      ≡ ok (
        set_bucket h idx (record (h.kmembuckets idx) { head = h.word (h.kmembuckets idx).head }),
        (h.kmembuckets idx).head,
      )
unfolding next_buf
next_buf-head h idx nn =
    let test : ((h.kmembuckets idx).head == 0) ≡ false = ground arith in rw test

bucket_alloc-taken_head :
    (h : Heap) (idx : ℕ)
    → idx ≤ 12
    → (h.kmembuckets idx).head ≢ 0
    → h.sig (h.kmembuckets idx).head ≡ freebuf_sig
    → bucket_alloc h idx ≡ ok (taken_head h idx, (h.kmembuckets idx).head)
unfolding bucket_alloc
bucket_alloc-taken_head h idx le nn free =
    let fits = le→leb idx 12 le in
    let here : (idx == idx) ≡ true = ground arith in
    let next = next_buf-head h idx nn in
    let head = (h.kmembuckets idx).head in
    rw (fits, next, here, free)
      (ap {B = Outcome (Heap × ℕ)}
        (λ (k : ℕ → Bucket).
          ok (record h { sig = update h.sig head allocbuf_sig; kmembuckets = k }, head))
        (twice h.kmembuckets idx _ _))

counter_back : (n : ℕ) → n < 2 ^ 32 → ((n + 1) % 2 ^ 32 + (2 ^ 32 - 1)) % 2 ^ 32 ≡ n
counter_back n h = omega arith

-- A bucket after a buffer was put into it and taken out.
bucket_back :
    (bucket : Bucket) (buf : ℕ) (word : ℕ → ℕ)
    → bucket.totalfree < 2 ^ 32
    → word buf ≡ bucket.head
    → let full : Bucket = record bucket {
      head = buf;
      totalfree = (bucket.totalfree + 1) % 2 ^ 32;
    } in
      ◌≡◌ {A = Bucket}
        (record full { head = word buf; totalfree = (full.totalfree + (2 ^ 32 - 1)) % 2 ^ 32 })
        bucket
bucket_back bucket buf word h e =
    ap {B = Bucket}
      (λ (x : ℕ). record bucket {
        head = x;
        totalfree = ((bucket.totalfree + 1) % 2 ^ 32 + (2 ^ 32 - 1)) % 2 ^ 32;
      })
      e
    ∙ ap {B = Bucket} (λ (x : ℕ). record bucket { totalfree = x }) (counter_back bucket.totalfree h)

-- A buffer in use that is given back is the next one that its bucket gives out, signed as allocated, and
-- afterwards the buckets are as they were: every list and every counter.
pub bucket_alloc-kfree :
    (h : Heap) (buf idx page : ℕ)
    → IsAllocated h buf idx page
    → Returns (Reused h buf) (kfree h buf >>= λ h1. bucket_alloc h1 idx)
bucket_alloc-kfree h buf idx page a =
    let bucket = h.kmembuckets idx in
    let h1 = given_back h buf idx in
    let full : Bucket = record bucket { head = buf; totalfree = (bucket.totalfree + 1) % 2 ^ 32 } in
    let filled : h1.kmembuckets idx ≡ full = update_same h.kmembuckets idx full in
    let head : (h1.kmembuckets idx).head ≡ buf = ap (λ b. b.head) filled in
    let free = ap h1.sig head ∙ update_same h.sig buf freebuf_sig in
    let result = bucket_alloc-taken_head h1 idx a.idx_le (λ z. a.not_null (sym head ∙ z)) free in
    let new = λ (b : Bucket). record b {
      head = h1.word b.head;
      totalfree = (b.totalfree + (2 ^ 32 - 1)) % 2 ^ 32;
    } in
    (
      (taken_head h1 idx, (h1.kmembuckets idx).head),
      ap (λ o. o >>= λ h2. bucket_alloc h2 idx) (kfree-given_back h buf idx page a) ∙ result,
      record {
        same_buf = head;
        same_buckets =
            update-elim (λ j b. b ≡ h.kmembuckets j) h1.kmembuckets idx (new (h1.kmembuckets idx))
              (ap new filled
                ∙ bucket_back bucket buf h1.word a.counted (update_same h.word buf bucket.head))
              (λ j ne. update_ne h.kmembuckets idx j full ne);
        signed =
            ap (λ x. update h1.sig x allocbuf_sig buf) head ∙ update_same h1.sig buf allocbuf_sig;
        other_words = λ b ne. update_ne h.word buf b bucket.head ne;
        other_sigs = λ b ne.
            ap (λ x. update h1.sig x allocbuf_sig b) head
            ∙ update_ne h1.sig buf b allocbuf_sig ne
            ∙ update_ne h.sig buf b freebuf_sig ne;
        same_pages = refl;
      },
    )
