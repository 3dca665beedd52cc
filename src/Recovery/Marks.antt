-- ===== src/Recovery/Marks.antt =====
-- What `_reconcile_mark_freshness` of hobo/log/recovery.py makes of the marks.
use mathlib.Core.Path.{subst}
use hobo.Prelude.{
  ℕ, String, ◌≡◌, refl, ap, ◌∙◌, ◌⊎◌, inl, inr, true, Bool-cases, some, List, [], ◌∷◌, All, str_eq,
  eq_iff, eq_refl, Result, Result-cases, ok, returned, after,
}
use hobo.Prelude.Dict
use hobo.Prelude.Dict.{Dict, get-set}
use hobo.Float.{Num}
use hobo.Risk.Model.{Instrument}
use hobo.Risk.State.{State}
use hobo.Recovery.{Warning, is_fresh, seed_mark, reconcile_mark_freshness}
use hobo.Recovery.Specs.{warned-returned}

module _ {F : Type 0} ⦃n : Num F⦄ (fetch : String → Result (F × ℕ)) (now : ℕ) where
  -- The mark of the instrument is recent, or it is the one that the venue answered with.
  abbrev pub HasMark : State F → String → Type 0
  HasMark s iid =
      (is_fresh (Dict.get s.mark_ts_ns iid) now ≡ true)
      ⊎ ((mark : F × ℕ) × (fetch iid ≡ ok mark)
          × (Dict.get s.marks iid ≡ some mark.0)
          × (Dict.get s.mark_ts_ns iid ≡ some mark.1))

  HasMark-seed :
      (s : State F) (iid : String) (mark : F × ℕ)
      → fetch iid ≡ ok mark
      → HasMark (seed_mark s iid mark) iid
  HasMark-seed s iid mark q = inr (
    mark,
    q,
    get-set s.marks iid iid mark.0 ∙ rw (eq_refl iid) refl,
    get-set s.mark_ts_ns iid iid mark.1 ∙ rw (eq_refl iid) refl,
  )

  HasMark-kept :
      (s : State F) (iid k : String) (mark : F × ℕ)
      → fetch iid ≡ ok mark
      → HasMark s k
      → HasMark (seed_mark s iid mark) k
  HasMark-kept s iid k mark q h = elim (Bool-cases (str_eq iid k)) [
    | inl same ↦
        subst (HasMark (seed_mark s iid mark)) ((eq_iff iid k).0 same) (HasMark-seed s iid mark q)
    | inr other ↦
        let price = get-set s.marks iid k mark.0 ∙ rw other refl in
        let time = get-set s.mark_ts_ns iid k mark.1 ∙ rw other refl in
        elim h [
          | inl recent ↦ inl (ap (λ o. is_fresh o now) time ∙ recent)
          | inr (m, f, p, t) ↦ inr (m, f, price ∙ p, time ∙ t)
        ]
  ]

  reconcile_mark_freshness-keeps :
      (es : Dict (Instrument F)) (s s' : State F) (ws : List (Warning F)) (k : String)
      → reconcile_mark_freshness fetch now s es ≡ returned ws s'
      → HasMark s k
      → HasMark s' k
  unfolding reconcile_mark_freshness
  reconcile_mark_freshness-keeps [] s s' ws k h m = subst (λ t. HasMark t k) (ap after h) m
  reconcile_mark_freshness-keeps ((j, i) ∷ es) s s' ws k h m =
      elim (Bool-cases (is_fresh (Dict.get s.mark_ts_ns j) now)) [
        | inl recent ↦ reconcile_mark_freshness-keeps es s s' ws k (rw recent at h) m
        | inr stale ↦ elim (Result-cases (fetch j)) [
          | inr (e, q) ↦ cc (rw (stale, q) at h)
          | inl (mark, q) ↦
              let (vs, rest) = warned-returned _ _ ws s' (rw (stale, q) at h) in
              reconcile_mark_freshness-keeps es (seed_mark s j mark) s' vs k rest
                (HasMark-kept s j k mark q m)
        ]
      ]

  reconcile_mark_freshness-each :
      (es : Dict (Instrument F)) (s s' : State F) (ws : List (Warning F))
      → reconcile_mark_freshness fetch now s es ≡ returned ws s'
      → All (λ (e : String × Instrument F). HasMark s' e.0) es
  unfolding reconcile_mark_freshness
  reconcile_mark_freshness-each [] s s' ws h = tt
  reconcile_mark_freshness-each ((j, i) ∷ es) s s' ws h =
      elim (Bool-cases (is_fresh (Dict.get s.mark_ts_ns j) now)) [
        | inl recent ↦
            let rest = rw recent at h in
            (
              reconcile_mark_freshness-keeps es s s' ws j rest (inl recent),
              reconcile_mark_freshness-each es s s' ws rest,
            )
        | inr stale ↦ elim (Result-cases (fetch j)) [
          | inr (e, q) ↦ cc (rw (stale, q) at h)
          | inl (mark, q) ↦
              let (vs, rest) = warned-returned _ _ ws s' (rw (stale, q) at h) in
              let next = seed_mark s j mark in
              (
                reconcile_mark_freshness-keeps es next s' vs j rest (HasMark-seed s j mark q),
                reconcile_mark_freshness-each es next s' vs rest,
              )
        ]
      ]

  -- No stale mark survives a recovery: where the reconciliation of the marks returns, the mark of each
  -- instrument is at most five seconds old, or its price and time are those that the venue answered
  -- with.
  pub reconcile_mark_freshness-fresh :
      (s s' : State F) (ws : List (Warning F))
      → reconcile_mark_freshness fetch now s s.instruments ≡ returned ws s'
      → All (λ (e : String × Instrument F). HasMark s' e.0) s.instruments
  reconcile_mark_freshness-fresh s s' ws h = reconcile_mark_freshness-each s.instruments s s' ws h
