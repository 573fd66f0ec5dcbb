-- ===== src/Process/Hooks.antt =====
-- What the hook functions do to the list of hooks.
use continuum_os.Common.{
  ℕ, suc, ◌≡◌, refl, ap, List, [], ◌∷◌, Option, none, some, Bool, true, false, length,
  if◌then◌else◌, Bool-cases, inl, inr,
}
use continuum_os.Process.{Hook, HookType, matches, remove_hook, has_hook}

-- The hooks that do not match, in their order.
unfoldable pub others : HookType → ℕ → List Hook → List Hook
others type value [] = []
others type value (h ∷ hs) =
    if matches type value h then others type value hs else h ∷ others type value hs

-- What one call of `process_remove_hook` finds.
pub data Removal (type : HookType) (value : ℕ) (hs : List Hook) (r : Option (List Hook))
    : Type 0 where
  absent :
      r ≡ none
      → others type value hs ≡ hs
      → has_hook type value hs ≡ false
      → Removal type value hs r
  removed :
      (hs' : List Hook)
      → r ≡ some hs'
      → others type value hs' ≡ others type value hs
      → length hs ≡ suc (length hs')
      → has_hook type value hs ≡ true
      → Removal type value hs r

-- Removing a hook takes one that matches and leaves all those that do not in their order; it fails
-- only where none matches.
pub remove_hook-Removal :
    (type : HookType) (value : ℕ) (hs : List Hook)
    → Removal type value hs (remove_hook type value hs)
unfolding remove_hook others has_hook
remove_hook-Removal type value [] = absent refl refl refl
remove_hook-Removal type value (h ∷ hs) =
    first (matches type value h) refl (remove_hook-Removal type value hs)
  where
    later :
        (r : Option (List Hook))
        → matches type value h ≡ false
        → Removal type value hs r
        → Removal type value (h ∷ hs) (elim r [ none ↦ none | some hs' ↦ some (h ∷ hs') ])
    later r m (absent e o n) = rw e (absent refl (rw m (ap (λ l. h ∷ l) o)) (rw m n))
    later r m (removed hs' e o l y) =
        rw e (removed (h ∷ hs') refl (rw m (ap (λ l. h ∷ l) o)) (ap suc l) (rw m y))

    first :
        (b : Bool)
        → matches type value h ≡ b
        → Removal type value hs (remove_hook type value hs)
        → Removal type value (h ∷ hs) (remove_hook type value (h ∷ hs))
    first true m r = rw m (removed hs refl (rw m refl) refl (rw m refl))
    first false m r = rw m (later (remove_hook type value hs) m r)

pub has_hook-others :
    (type : HookType) (value : ℕ) (hs : List Hook)
    → has_hook type value (others type value hs) ≡ false
unfolding has_hook others
has_hook-others type value [] = refl
has_hook-others type value (h ∷ hs) = elim (Bool-cases (matches type value h)) [
  | inl m ↦ rw m (has_hook-others type value hs)
  | inr m ↦ rw (m, m) (has_hook-others type value hs)
]
