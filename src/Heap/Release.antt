-- ===== src/Heap/Release.antt =====
-- `kfree` on a heap whose blocks fill it.
use continuum_os.Common.{
  ℕ, ◌+◌, ◌-◌, ◌%◌, ◌^◌, ◌≤◌, ◌≡◌, refl, ◌≢◌, inl, inr, true, false, Option, none, some, List, [],
  ◌∷◌, arith, ◌==◌, ==_iff, Bool-cases,
}
use continuum_os.Heap.Layout.{Tiles, IsHeap, heap_end, Tiles-le, block_at-within}
use continuum_os.Heap.{Block, Heap, header_size, heap_start, block_at, merge_next, release, kfree}

-- The block at `at` is given back; the other blocks in use stay as they are, and no other comes
-- into use.
pub record Gives (at : ℕ) (bs bs' : List Block) : Type 0 where
  pub block : Block
  pub now : block_at at bs' ≡ some block
  pub freed : block.free ≡ true
  pub kept :
      (a : ℕ) (b : Block)
      → a ≢ at
      → block_at a bs ≡ some b
      → b.free ≡ false
      → block_at a bs' ≡ some b
  pub only : (a : ℕ) (b : Block) → block_at a bs' ≡ some b → b.free ≡ false → block_at a bs ≡ some b

merge_next-Tiles :
    (s e : ℕ) (b : Block) (bs : List Block)
    → e ≤ 2 ^ 24
    → Tiles s e (b ∷ bs)
    → Tiles s e (merge_next b bs)
unfolding merge_next
merge_next-Tiles s e b [] small t = t
merge_next-Tiles s e b (n ∷ rest) small t = elim (Bool-cases n.free) [
  | inl fr ↦ rw fr (t.0, rw ends at (t.1.1))
  | inr used ↦ simp used (t.0, (t.1.0, t.1.1))
]
  where
    ends :
        s + header_size + b.size + header_size + n.size
        ≡ s + header_size + (b.size + (n.size + header_size)) % 2 ^ 32
    ends = omega (arith, Tiles-le (s + header_size + b.size + header_size + n.size) e rest t.1.1)

merge_next-Gives :
    (s e : ℕ) (b : Block) (bs : List Block)
    → e ≤ 2 ^ 24
    → Tiles s e (b ∷ bs)
    → Gives b.addr (b ∷ bs) (merge_next b bs)
unfolding merge_next block_at
merge_next-Gives s e b [] small t = record {
  block = record b { free = true };
  now = ground arith;
  freed = refl;
  kept = λ a c ne h f. ground arith;
  only = λ a c h f. ground arith;
}
merge_next-Gives s e b (n ∷ rest) small t = elim (Bool-cases n.free) [
  | inl fr ↦ rw fr (record {
    block = record {
      addr = b.addr;
      size = (b.size + (n.size + header_size)) % 2 ^ 32;
      free = true;
    };
    now = ground arith;
    freed = refl;
    kept = λ a c ne h f. ground arith;
    only = λ a c h f.
        ground (
          arith,
          block_at-within (s + header_size + b.size + header_size + n.size) e a rest c t.1.1,
        );
  })
  | inr used ↦ rw used (record {
    block = record b { free = true };
    now = ground arith;
    freed = refl;
    kept = λ a c ne h f. ground arith;
    only = λ a c h f. ground arith;
  })
]

record Given (s e at : ℕ) (bs : List Block) (r : Option (List Block)) : Type 0 where
  after : List Block
  result : r ≡ some after
  gives : Gives at bs after
  tiles : Tiles s e after

no_block : (at : ℕ) (b : Block) → block_at at [] ≡ some b → ⊥
unfolding block_at
no_block at b h = cc

passed :
    (at : ℕ) (c : Block) (bs : List Block) (b : Block)
    → (c.addr == at) ≡ false
    → block_at at (c ∷ bs) ≡ some b
    → block_at at bs ≡ some b
unfolding block_at
passed at c bs b miss h = ground arith

-- The same behind one more block.
behind :
    (s e at : ℕ) (c : Block) (bs : List Block)
    → Tiles s e (c ∷ bs)
    → (c.addr == at) ≡ false
    → (r : Option (List Block)) → Given (s + header_size + c.size) e at bs r
    → Given s e at (c ∷ bs) (elim r [ none ↦ none | some bs' ↦ some (c ∷ bs') ])
unfolding block_at
behind s e at c bs t miss r g = rw (g.result) (record {
  after = c ∷ g.after;
  result = refl;
  gives = record {
    block = g.gives.block;
    now = ground (arith, g.gives.now);
    freed = g.gives.freed;
    kept = λ a b ne h f. ground (arith, g.gives.kept a b);
    only = λ a b h f. ground (arith, g.gives.only a b);
  };
  tiles = (t.0, g.tiles);
})

release-Given :
    (s e at : ℕ) (bs : List Block) (b : Block)
    → e ≤ 2 ^ 24
    → Tiles s e bs
    → block_at at bs ≡ some b
    → Given s e at bs (release at bs)
unfolding release
release-Given s e at [] b small t h = absurd (no_block at b h)
release-Given s e at (c ∷ bs) b small t h = elim (Bool-cases (c.addr == at)) [
  | inl hit ↦
      let here = (==_iff c.addr at).0 hit in
      rw hit (record {
        after = merge_next c bs;
        result = refl;
        gives = rw (← here) (merge_next-Gives s e c bs small t);
        tiles = merge_next-Tiles s e c bs small t;
      })
  | inr miss ↦ rw miss (
      behind s e at c bs t miss (release at bs)
        (release-Given (s + header_size + c.size) e at bs b small t.1 (passed at c bs b miss h)))
]

-- What `kfree` of the payload of the block at `at` does to the heap `h`.
pub record Freeing (at : ℕ) (h : Heap) (r : Option Heap) : Type 0 where
  pub after : Heap
  pub result : r ≡ some after
  pub gives : Gives at h.free_list after.free_list
  pub filled : IsHeap after
  pub untouched : after.bytes ≡ h.bytes

-- `kfree` of a pointer to a block's payload runs without a fault, marks that block free, leaves every
-- other block in use as it is, and the blocks still fill the heap.
pub kfree-Freeing :
    (at : ℕ) (h : Heap) (b : Block)
    → IsHeap h
    → block_at at h.free_list ≡ some b
    → Freeing at h (kfree (some (at + header_size)) h)
unfolding kfree
kfree-Freeing at h b t found =
    rw (header, kfree)
      (outcome (release at h.free_list)
        (release-Given heap_start heap_end at h.free_list b (omega arith) t found))
  where
    header : at + header_size - header_size ≡ at
    header = omega arith

    outcome :
        (r : Option (List Block))
        → Given heap_start heap_end at h.free_list r
        → Freeing at h (elim r [ none ↦ none | some bs ↦ some (record h { free_list = bs }) ])
    outcome r g = rw (g.result) (record {
      after = record h { free_list = g.after };
      result = refl;
      gives = g.gives;
      filled = g.tiles;
      untouched = refl;
    })

-- The block that was freed is no longer in use.
pub freed_not_in_use :
    (at : ℕ) (h : Heap) (b : Block)
    → IsHeap h
    → block_at at h.free_list ≡ some b
    → (r : Heap) → kfree (some (at + header_size)) h ≡ some r
    → (c : Block) → block_at at r.free_list ≡ some c
    → c.free ≡ true
freed_not_in_use at h b t found r e c q =
    let f = kfree-Freeing at h b t found in ground (arith, f.result, f.gives.now, f.gives.freed)
