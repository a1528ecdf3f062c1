-- ===== src/Heap.antt =====
-- mm/kmalloc.c and include/kmalloc.h: the bucket allocator over the page allocator. Memory is read and
-- written at buffers only, which are aligned to 16 bytes: `word` is the pointer at an address, and `sig`
-- the four bytes behind it. `in_bucket` and `bucket_idx` are those fields of the page descriptors.
pub mod Reuse
pub mod Sizes
mod Tests
use cute.Base.{
  ℕ, zero, suc, ◌+◌, ◌-◌, ◌*◌, ◌/◌, ◌%◌, ◌^◌, Bool, true, false, not, update, ltb, leb, ◌==◌,
  if◌then◌else◌, Outcome, ok, panic, ◌>>=◌, ◌>>◌, assert,
}
use cute.Pages.{PageAlloc, Page, page_size, zone_any, page_address, get_free_page, addr_to_page}

abbrev pub minbucket_idx : ℕ
minbucket_idx = 4

abbrev pub maxbucket_idx : ℕ
maxbucket_idx = 12

abbrev pub minalloc_sz : ℕ
minalloc_sz = 16

abbrev pub freebuf_sig : ℕ
freebuf_sig = 3405691582

abbrev pub allocbuf_sig : ℕ
allocbuf_sig = 3735928559

-- `struct bucket`, less its lock; a head of 0 is `NULL`.
pub record Bucket : Type 0 where
  pub head : ℕ
  pub totalpages : ℕ
  pub totalfree : ℕ

pub record Heap : Type 0 where
  pub pages : PageAlloc
  pub in_bucket : ℕ → Bool
  pub bucket_idx : ℕ → ℕ
  pub word : ℕ → ℕ
  pub sig : ℕ → ℕ
  pub kmembuckets : ℕ → Bucket

abbrev pub sign_buf : Heap → ℕ → ℕ → Heap
sign_buf h buf signature = record h { sig = update h.sig buf signature }

abbrev pub is_free_buf : Heap → ℕ → Bool
is_free_buf h buf = h.sig buf == freebuf_sig

abbrev pub set_word : Heap → ℕ → ℕ → Heap
set_word h buf value = record h { word = update h.word buf value }

abbrev pub set_bucket : Heap → ℕ → Bucket → Heap
set_bucket h idx bucket = record h { kmembuckets = update h.kmembuckets idx bucket }

-- `while (buf < (end - buf_len))`, and the last buffer behind it, on fuel.
pub tokenize : ℕ → Heap → ℕ → ℕ → ℕ → Outcome Heap
tokenize zero h buf end buf_len = panic
tokenize (suc fuel) h buf end buf_len =
    let next = sign_buf (set_word h buf (buf + buf_len)) buf freebuf_sig in
    let rest = tokenize fuel next (buf + buf_len) end buf_len in
    if ltb buf (end - buf_len) then rest else ok (sign_buf (set_word h buf 0) buf freebuf_sig)

-- The first buffer of a new page; a page has 256 buffers at most.
pub get_tokenized_page : Heap → ℕ → Outcome (Heap × ℕ)
get_tokenized_page h idx = do
  (pages, page) ← get_free_page h.pages zone_any
  start ← page_address (pages.page page)
  let marked = record h {
    pages = pages;
    in_bucket = update h.in_bucket page true;
    bucket_idx = update h.bucket_idx page idx;
  }
  h' ← tokenize page_size marked start (start + page_size) (2 ^ idx)
  ok (h', start)

-- The first buffer of a new page, and the others for the bucket's list.
pub refill : Heap → ℕ → Outcome (Heap × ℕ)
refill h idx = do
  let bucket = h.kmembuckets idx
  assert (bucket.totalfree == 0)
  (h', buf) ← get_tokenized_page h idx
  ok (
    set_bucket h' idx (record {
      head = h'.word buf;
      totalpages = bucket.totalpages + 1;
      totalfree = page_size / 2 ^ idx;
    }),
    buf,
  )

-- The bucket's next buffer: the head of its list, or the first of a new page.
pub next_buf : Heap → ℕ → Outcome (Heap × ℕ)
next_buf h idx =
    let bucket = h.kmembuckets idx in
    let refilled = refill h idx in
    if bucket.head == 0
    then refilled
    else ok (set_bucket h idx (record bucket { head = h.word bucket.head }), bucket.head)

-- `__kmalloc`; `int` counters, as words of 32 bits.
pub bucket_alloc : Heap → ℕ → Outcome (Heap × ℕ)
bucket_alloc h idx = do
  assert (leb idx maxbucket_idx)
  (h', buf) ← next_buf h idx
  let bucket = h'.kmembuckets idx
  let counted =
      set_bucket h' idx (record bucket { totalfree = (bucket.totalfree + (2 ^ 32 - 1)) % 2 ^ 32 })
  assert (is_free_buf counted buf)
  ok (sign_buf counted buf allocbuf_sig, buf)

-- The bucket of a size.
pub bucket_of : ℕ → Outcome ℕ
bucket_of size =
    if leb size minalloc_sz
    then ok minbucket_idx
    else if leb size (minalloc_sz * 2)
    then ok (minbucket_idx + 1)
    else if leb size (minalloc_sz * 4)
    then ok (minbucket_idx + 2)
    else if leb size (minalloc_sz * 8)
    then ok (minbucket_idx + 3)
    else if leb size (minalloc_sz * 16)
    then ok (minbucket_idx + 4)
    else if leb size (minalloc_sz * 32)
    then ok (minbucket_idx + 5)
    else if leb size (minalloc_sz * 64)
    then ok (minbucket_idx + 6)
    else if leb size (minalloc_sz * 128)
    then ok (minbucket_idx + 7)
    else if leb size (minalloc_sz * 256)
    then ok (minbucket_idx + 8)
    else panic

pub kmalloc : Heap → ℕ → Outcome (Heap × ℕ)
kmalloc h size = do assert (ltb 0 size); idx ← bucket_of size; bucket_alloc h idx

pub kfree : Heap → ℕ → Outcome Heap
kfree h buf = do
  page ← addr_to_page h.pages buf
  let idx = h.bucket_idx page
  let bucket = h.kmembuckets idx
  assert (not (h.pages.page page).free)
  assert (h.in_bucket page)
  assert (buf % 2 ^ idx == 0)
  assert (not (is_free_buf h buf))
  ok (
      set_bucket (set_word (sign_buf h buf freebuf_sig) buf bucket.head) idx
        (record bucket { head = buf; totalfree = (bucket.totalfree + 1) % 2 ^ 32 }))
