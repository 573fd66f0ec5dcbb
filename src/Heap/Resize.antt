-- ===== src/Heap/Resize.antt =====
-- `krealloc`: what it copies and what it leaves alone.
use continuum_os.Common.{
  ℕ, zero, suc, ◌+◌, ◌-◌, ◌^◌, ◌≤◌, ◌<◌, ◌≡◌, refl, ◌∙◌, ◌≢◌, ◌⊎◌, ap, true, false, Option, none,
  some, arith, leb, ◌==◌, if◌then◌else◌,
}
use native.Mathlib.Nat.{add-zero}
use continuum_os.Heap.Layout.{IsHeap}
use continuum_os.Heap.Alloc.{Takes, Allocation, kmalloc-Allocation, rounded}
use continuum_os.Heap.Alloc
use continuum_os.Heap.Release.{kfree-Freeing}
use continuum_os.Heap.{
  Block, Heap, header_size, block_at, copy_bytes, kmalloc, kfree, move_to, grow, resize, krealloc,
}

abbrev put : ℕ → ℕ → (ℕ → ℕ) → ℕ → ℕ
put dst src m a = if a == dst then m src else m a

pub copy_bytes_outside :
    (n dst src : ℕ) (m : ℕ → ℕ) (a : ℕ) → (a < dst) ⊎ (dst + n ≤ a) → copy_bytes n dst src m a ≡ m a
unfolding copy_bytes
copy_bytes_outside zero dst src m a h = refl
copy_bytes_outside (suc n) dst src m a h =
    ground (arith, copy_bytes_outside n (dst + 1) (src + 1) (put dst src m) a)

-- The two ranges do not overlap.
pub copy_bytes_inside :
    (n dst src : ℕ) (m : ℕ → ℕ) (i : ℕ)
    → (src + n ≤ dst) ⊎ (dst + n ≤ src)
    → i < n
    → copy_bytes n dst src m (dst + i) ≡ m (src + i)
unfolding copy_bytes
copy_bytes_inside zero dst src m i apart h = absurd (omega arith)
copy_bytes_inside (suc n) dst src m zero apart h =
    rw (add-zero, add-zero)
      (copy_bytes_outside n (dst + 1) (src + 1) (put dst src m) dst (omega arith) ∙ ground arith)
copy_bytes_inside (suc n) dst src m (suc i) apart h =
    rw (shift dst, shift src)
      (copy_bytes_inside n (dst + 1) (src + 1) (put dst src m) i (ground arith) (omega arith)
        ∙ ground arith)
  where
    shift : (x : ℕ) → x + suc i ≡ x + 1 + i
    shift x = omega arith

-- What `krealloc` does where the block at `at`, in use, has fewer than `size` bytes.
pub data Resizing (at size : ℕ) (h : Heap) (b : Block) (r : Option (Option ℕ × Heap)) : Type 0 where
  moved :
      (to : ℕ) (h' : Heap) (n old : Block)
      → r ≡ some (some (to + header_size), h')
      → IsHeap h'
      → block_at to h'.free_list ≡ some n
      → n.free ≡ false
      → size ≤ n.size
      → ((i : ℕ) → i < b.size → h'.bytes (to + header_size + i) ≡ h.bytes (at + header_size + i))
      → block_at at h'.free_list ≡ some old
      → old.free ≡ true
      → ((a : ℕ) (c : Block)
          → a ≢ at
          → block_at a h.free_list ≡ some c
          → c.free ≡ false
          → (block_at a h'.free_list ≡ some c)
            × ((i : ℕ)
                → i < c.size
                → h'.bytes (a + header_size + i) ≡ h.bytes (a + header_size + i)))
      → ((a : ℕ) (c : Block)
          → a ≢ to
          → block_at a h'.free_list ≡ some c
          → c.free ≡ false
          → block_at a h.free_list ≡ some c)
      → Resizing at size h b r
  refused :
      r ≡ some (none, h)
      → ((a : ℕ) (c : Block)
          → block_at a h.free_list ≡ some c
          → c.free ≡ true
          → c.size < rounded size)
      → Resizing at size h b r

grow-none : (ptr : ℕ) (h : Heap) (r : Option ℕ × Heap) → r ≡ (none, h) → grow ptr r ≡ some (none, h)
unfolding grow
grow-none ptr h r e = rw e refl

grow-some : (ptr q : ℕ) (r : Option ℕ × Heap) → r.0 ≡ some q → grow ptr r ≡ move_to ptr q r.1
unfolding grow
grow-some ptr q (none, h) e = absurd (cc)
grow-some ptr q (some p, h) e = let same : p ≡ q = ground arith in rw same refl

-- The heap between the copy and the `kfree`.
abbrev copied : ℕ → ℕ → Block → Heap → Heap
copied at q b h = record h { bytes = copy_bytes b.size q (at + header_size) h.bytes }

move_to_lem :
    (at q : ℕ) (h h' : Heap) (b : Block)
    → block_at at h.free_list ≡ some b
    → kfree (some (at + header_size)) (copied at q b h) ≡ some h'
    → move_to (at + header_size) q h ≡ some (some q, h')
unfolding move_to
move_to_lem at q h h' b found freed =
    let header : at + header_size - header_size ≡ at = omega arith in
    rw (header, move_to, found, freed) refl

module _ (at size : ℕ) (h : Heap) (b : Block) (t : IsHeap h)
    (found : block_at at h.free_list ≡ some b) (live : b.free ≡ false) (short : b.size < size) where
  moving :
      (r : Option ℕ × Heap) (to : ℕ)
      → r.0 ≡ some (to + header_size)
      → (k : Takes (rounded size) to h.free_list r.1.free_list) → IsHeap r.1
      → ((a : ℕ) (c : Block)
          → block_at a h.free_list ≡ some c
          → c.free ≡ false
          → (a + header_size + c.size ≤ to) ⊎ (to + header_size + k.block.size ≤ a))
      → r.1.bytes ≡ h.bytes
      → size ≤ rounded size
      → Resizing at size h b (grow (at + header_size) r)
  moving r to e k filled apart same up =
      let old = k.kept at b found live in
      let f = kfree-Freeing at (copied at (to + header_size) b r.1) b filled old in
      let g = f.gives in
      let bytes_of = λ (a : ℕ). ap (λ (m : ℕ → ℕ). m a) f.untouched in
      moved to f.after k.block g.block
        (grow-some (at + header_size) (to + header_size) r e
          ∙ move_to_lem at (to + header_size) r.1 f.after b old f.result)
        f.filled (g.kept to k.block (λ q. ground (arith, k.was, k.was_free)) k.now k.in_use)
        k.in_use (omega (arith, k.enough))
        (λ i l.
          bytes_of (to + header_size + i)
          ∙ copy_bytes_inside b.size (to + header_size) (at + header_size) r.1.bytes i
              (omega (arith, k.enough, apart at b found live)) l
          ∙ ap (λ (m : ℕ → ℕ). m (at + header_size + i)) same)
        g.now g.freed
        (λ a c ne hc fc. (
          g.kept a c ne (k.kept a c hc fc) fc,
          λ i l.
              bytes_of (a + header_size + i)
              ∙ copy_bytes_outside b.size (to + header_size) (at + header_size) r.1.bytes
                  (a + header_size + i) (omega (arith, k.enough, apart a c hc fc))
              ∙ ap (λ (m : ℕ → ℕ). m (a + header_size + i)) same,
        ))
        (λ a c ne hc fc. k.only a c ne (g.only a c hc fc) fc)

  grown :
      (r : Option ℕ × Heap)
      → size ≤ rounded size
      → Allocation size h r
      → Resizing at size h b (grow (at + header_size) r)
  grown r up (Alloc.allocated to e k filled apart same) = moving r to e k filled apart same up
  grown r up (Alloc.refused e all) = refused (grow-none (at + header_size) h r e) all

resize_short :
    (at size : ℕ) (h : Heap) (b : Block)
    → block_at at h.free_list ≡ some b
    → b.size < size
    → resize (at + header_size) size h ≡ grow (at + header_size) (kmalloc size h)
unfolding resize
resize_short at size h b found short =
    let header : at + header_size - header_size ≡ at = omega arith in
    let less : leb size b.size ≡ false = ground arith in rw (header, resize, found, less) refl

-- `krealloc` of a block in use to a size that it does not have, up to 2 ^ 32 - 16, moves it: the new
-- block has at least that size and the old block's bytes, the old block is free, every other block in
-- use keeps its place and its bytes, no block but the new one comes into use, and the blocks still
-- fill the heap. It answers NULL, changing nothing, only where every free block is smaller than the
-- size rounded up to 16.
pub krealloc-Resizing :
    (at size : ℕ) (h : Heap) (b : Block)
    → IsHeap h
    → block_at at h.free_list ≡ some b
    → b.free ≡ false
    → b.size < size
    → size ≤ 2 ^ 32 - 16
    → Resizing at size h b (krealloc (some (at + header_size)) size h)
unfolding krealloc
krealloc-Resizing at zero h b t found live short small = absurd (omega arith)
krealloc-Resizing at (suc n) h b t found live short small =
    rw (resize_short at (suc n) h b found short) (
      grown at (suc n) h b t found live short (kmalloc (suc n) h) (omega arith)
        (kmalloc-Allocation (suc n) h t (omega arith) small))
