-- ===== src/Core/Reconciler/Complete.antt =====
-- What hobo/core/fill_reconciler.py does not overlook.
use mathlib.Core.Path.{subst}
use hobo.Prelude.{
  ℕ, zero, suc, ◌≤◌, String, ◌≡◌, sym, refl, ◌⊎◌, inl, inr, true, false, Bool-cases, Option, none,
  some, List, [], ◌∷◌, ◌++◌, All, arith,
}
use hobo.Core.Ingestor.{truthy}
use hobo.Core.Reconciler.{
  ExchangeFill, is_new, new_fills, any_older, last_cursor, fetch_pages, fetch_new, max_pages,
}
use hobo.Core.Reconciler.Fetched.{IsMissing, IsMissing-is_new}

module _ {F : Type 0} where
  abbrev pub Among : ExchangeFill F → List (ExchangeFill F) → Type 0
  Among f [] = ⊥
  Among f (g ∷ fs) = (g ≡ f) ⊎ Among f fs

  -- The pages that are asked for, of so many at most: the one at a cursor, and where that has no fill
  -- before the baseline, those from its last cursor on, if that is not empty.
  pub data Visits (fills : Option String → List (ExchangeFill F)) (baseline_ns : ℕ)
      : ℕ → Option String → List (ExchangeFill F) → Type 0 where
    here :
        {pages : ℕ} {cursor : Option String} {page : List (ExchangeFill F)}
        → fills cursor ≡ page
        → Visits fills baseline_ns (suc pages) cursor page
    onwards :
        {pages : ℕ} {cursor : Option String} {page : List (ExchangeFill F)} (f : ExchangeFill F)
        (fs : List (ExchangeFill F))
        → fills cursor ≡ f ∷ fs
        → All (λ (g : ExchangeFill F). baseline_ns ≤ g.ts_ns) (f ∷ fs)
        → truthy (last_cursor f fs) ≡ true
        → Visits fills baseline_ns pages (some (last_cursor f fs)) page
        → Visits fills baseline_ns (suc pages) cursor page

  Among-append_left :
      (f : ExchangeFill F) (xs ys : List (ExchangeFill F)) → Among f xs → Among f (xs ++ ys)
  Among-append_left f [] ys h = elim h [ ]
  Among-append_left f (x ∷ xs) ys (inl e) = inl e
  Among-append_left f (x ∷ xs) ys (inr h) = inr (Among-append_left f xs ys h)

  Among-append_right :
      (f : ExchangeFill F) (xs ys : List (ExchangeFill F)) → Among f ys → Among f (xs ++ ys)
  Among-append_right f [] ys h = h
  Among-append_right f (x ∷ xs) ys h = inr (Among-append_right f xs ys h)

  none_older :
      (baseline_ns : ℕ) (page : List (ExchangeFill F))
      → All (λ (g : ExchangeFill F). baseline_ns ≤ g.ts_ns) page
      → any_older baseline_ns page ≡ false
  none_older baseline_ns [] h = refl
  none_older baseline_ns (f ∷ page) h = ground (arith, none_older baseline_ns page h.1, h.0)

  new_fills-Among :
      (baseline_ns : ℕ) (seen : List String) (f : ExchangeFill F) (page : List (ExchangeFill F))
      → IsMissing baseline_ns seen f
      → Among f page
      → Among f (new_fills baseline_ns seen page)
  unfolding new_fills
  new_fills-Among baseline_ns seen f [] missing h = elim h [ ]
  new_fills-Among baseline_ns seen f (g ∷ page) missing (inl e) =
      rw
        (subst (λ x. is_new baseline_ns seen x ≡ true) (sym e)
          (IsMissing-is_new baseline_ns seen f missing))
        (inl e)
  new_fills-Among baseline_ns seen f (g ∷ page) missing (inr h) =
      let later = new_fills-Among baseline_ns seen f page missing h in
      elim (Bool-cases (is_new baseline_ns seen g)) [
        | inl e ↦ rw e (inr later)
        | inr e ↦ rw e later
      ]

  fetch_pages-Among :
      (fills : Option String → List (ExchangeFill F)) (baseline_ns : ℕ) (seen : List String)
      (pages : ℕ) (cursor : Option String) (page : List (ExchangeFill F)) (f : ExchangeFill F)
      → Visits fills baseline_ns pages cursor page
      → Among f page
      → IsMissing baseline_ns seen f
      → Among f (fetch_pages fills baseline_ns seen pages cursor)
  unfolding fetch_pages
  fetch_pages-Among fills baseline_ns seen zero cursor page f h among missing = elim h [ ]
  fetch_pages-Among fills baseline_ns seen (suc pages) cursor [] f (here e) among missing =
      absurd among
  fetch_pages-Among fills baseline_ns seen (suc pages) cursor (g ∷ gs) f (here e) among missing =
      rw (e, fetch_pages)
        (Among-append_left f (new_fills baseline_ns seen (g ∷ gs)) _
          (new_fills-Among baseline_ns seen f (g ∷ gs) missing among))
  fetch_pages-Among fills baseline_ns seen (suc pages) cursor page f
        (onwards g gs e recent named later) among missing =
      rw (e, fetch_pages)
        (rw (none_older baseline_ns (g ∷ gs) recent, named)
          (Among-append_right f (new_fills baseline_ns seen (g ∷ gs)) _ (
            fetch_pages-Among fills baseline_ns seen pages (some (last_cursor g gs)) page f later
              among missing)))

  -- No fill is overlooked: a fill of one of the ten pages at most that are asked for, that is not older
  -- than the baseline and whose trade id is neither empty nor seen, is fetched. The pages that are
  -- asked for are the newest one, and the next one at the last cursor of a page as long as the page
  -- has no fill before the baseline and that cursor is not empty.
  pub fetch_new-Among :
      (fills : Option String → List (ExchangeFill F)) (baseline_ns : ℕ) (seen : List String)
      (page : List (ExchangeFill F)) (f : ExchangeFill F)
      → Visits fills baseline_ns 10 none page
      → Among f page
      → IsMissing baseline_ns seen f
      → Among f (fetch_new fills baseline_ns seen)
  unfolding fetch_new
  fetch_new-Among fills baseline_ns seen page f visits among missing =
      fetch_pages-Among fills baseline_ns seen max_pages none page f visits among missing
