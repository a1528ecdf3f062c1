-- ===== src/Pages/Reverse.antt =====
-- The reverse mapping of mm/page_alloc.c, `addr_to_page`, over the ranges that `rmap_add_range` adds.
use cute.Base.{
  ℕ, ◌+◌, ◌-◌, ◌*◌, ◌/◌, ◌%◌, ◌^◌, ◌≤◌, ◌<◌, ◌≡◌, subst, inl, inr, List, [], ◌∷◌, arith, Bool-cases,
  ltb, leb, lt→ltb, le→leb, Outcome, ok, panic,
}
use cute.Pages.{
  Page, Rmap, PageAlloc, page_size, kern_page_offset, kern_phys_end_max, page_phys_addr, phys,
  find_rmap, addr_to_page,
}

-- The descriptors of a range stand in order from its first on.
pub record RmapIsValid (page : ℕ → Page) (top : ℕ) (r : Rmap) : Type 0 where
  pub base_aligned : r.base % page_size ≡ 0
  pub no_wrap : r.base + r.len < 2 ^ 64
  pub in_table : r.pfd_start + r.len / page_size ≤ top
  pub len_aligned : r.len % page_size ≡ 0
  pub frames :
      (k : ℕ) → k < r.len / page_size → (page (r.pfd_start + k)).pfn ≡ r.base / page_size + k

abbrev pub AreValid : (ℕ → Page) → ℕ → List Rmap → Type 0
AreValid page top [] = Unit {0}
AreValid page top (r ∷ rest) = RmapIsValid page top r × AreValid page top rest

abbrev pub Covers : Rmap → ℕ → Type 0
Covers r paddr = (r.base ≤ paddr) × (paddr < r.base + r.len)

-- No range covers the address.
abbrev pub IsUncovered : List Rmap → ℕ → Type 0
IsUncovered [] paddr = Unit {0}
IsUncovered (r ∷ rest) paddr = (¬ Covers r paddr) × IsUncovered rest paddr

-- What the search may answer: the descriptor of the frame, or a panic where no range has it.
abbrev pub Mapped : PageAlloc → List Rmap → ℕ → Outcome ℕ → Type 0
Mapped s rs paddr (ok p) = (p < s.pfdtable_top) × (page_phys_addr (s.page p) ≡ paddr)
Mapped s rs paddr panic = IsUncovered rs paddr

module _ (s : PageAlloc) (r : Rmap) (v : RmapIsValid s.page s.pfdtable_top r) (paddr : ℕ)
    (aligned : paddr % page_size ≡ 0) (c : Covers r paddr) where
  abbrev index : ℕ
  index = (paddr - r.base) / page_size

  index_small : index < r.len / page_size
  index_small = let (a, b) = c in let d = v.base_aligned in let e = v.len_aligned in omega arith

  index_frame : page_phys_addr (s.page (r.pfd_start + index)) ≡ paddr
  index_frame =
      let (a, b) = c in let d = v.base_aligned in let f = v.frames index index_small in omega arith

  index_below : r.pfd_start + index < s.pfdtable_top
  index_below = let i = index_small in let t = v.in_table in omega arith

Mapped-cons :
    (s : PageAlloc) (r : Rmap) (rest : List Rmap) (paddr : ℕ) (o : Outcome ℕ)
    → ¬ Covers r paddr
    → Mapped s rest paddr o
    → Mapped s (r ∷ rest) paddr o
Mapped-cons s r rest paddr (ok p) n m = m
Mapped-cons s r rest paddr panic n m = (n, m)

find_rmap-Mapped :
    (s : PageAlloc) (rs : List Rmap) (paddr : ℕ)
    → AreValid s.page s.pfdtable_top rs
    → paddr % page_size ≡ 0
    → Mapped s rs paddr (find_rmap s rs paddr)
unfolding find_rmap
find_rmap-Mapped s [] paddr v aligned = tt
find_rmap-Mapped s (r ∷ rest) paddr (v, vs) aligned =
    let end : (r.base + r.len) % 2 ^ 64 ≡ r.base + r.len = (let n = v.no_wrap in omega arith) in
    let later = find_rmap-Mapped s rest paddr vs aligned in
    elim (Bool-cases (ltb paddr r.base)) [
      | inl low ↦ rw low (
          Mapped-cons s r rest paddr (find_rmap s rest paddr) (λ c. (let a = c.0 in ground arith))
            later)
      | inr low ↦ elim (Bool-cases (leb (r.base + r.len) paddr)) [
        | inl high ↦ rw low (
            rw end (
              rw high (
                Mapped-cons s r rest paddr (find_rmap s rest paddr)
                  (λ c. (let b = c.1 in ground arith)) later)))
        | inr high ↦
            let c : Covers r paddr = (ground arith, ground arith) in
            let frame = index_frame s r v paddr aligned c in
            rw low (
              rw end (
                rw high (
                  rw frame (
                    rw (lt→ltb paddr (r.base + r.len) c.1)
                      (index_below s r v paddr aligned c, frame)))))
      ]
    ]

-- On valid ranges, `addr_to_page` of a kernel virtual address returns a descriptor of the table
-- whose frame is the page that holds the address, and it panics only where no range covers the page.
pub addr_to_page-Mapped :
    (s : PageAlloc) (vaddr : ℕ)
    → AreValid s.page s.pfdtable_top s.rmaps
    → kern_page_offset ≤ vaddr
    → vaddr < kern_page_offset + kern_phys_end_max
    → Mapped s s.rmaps ((vaddr - kern_page_offset) / page_size * page_size) (addr_to_page s vaddr)
unfolding addr_to_page phys
addr_to_page-Mapped s vaddr v lo hi = rw (le→leb kern_page_offset vaddr lo) (
    rw (lt→ltb vaddr (kern_page_offset + kern_phys_end_max) hi) (
      subst
        (λ a.
          Mapped s s.rmaps a (
            find_rmap s s.rmaps
              (vaddr - kern_page_offset - (vaddr - kern_page_offset) % page_size)))
        (omega arith)
        (find_rmap-Mapped s s.rmaps
          (vaddr - kern_page_offset - (vaddr - kern_page_offset) % page_size) v (omega arith))))
