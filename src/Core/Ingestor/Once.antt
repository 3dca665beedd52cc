-- ===== src/Core/Ingestor/Once.antt =====
-- Each trade is admitted once.
use Prim.Native.Nat.{◌+◌}
use hobo.Prelude.{
  ℕ, ◌≤◌, Option, String, ◌≡◌, refl, ap, ◌∙◌, inl, inr, Bool, true, false, Bool-cases, List, [],
  ◌∷◌, ◌++◌, str_eq, eq_iff, if◌then◌else◌, arith, none, some,
}
use hobo.Log.Event.{LogEvent, Envelope}
use hobo.Core.Event.{FillEvent}
use hobo.Core.Ingestor.{
  trade_id_of, member, truthy, FillIngestor, new_ingestor, seed_fill, seed_from_log, submit,
  submit_all,
}

module _ {F : Type 0} where
  -- How often a trade id was published.
  unfoldable pub times : String → List (FillEvent F) → ℕ
  times id [] = 0
  times id (f ∷ fs) = if str_eq f.trade_id id then 1 + times id fs else times id fs

  times-append :
      (id : String) (fs gs : List (FillEvent F)) → times id (fs ++ gs) ≡ times id fs + times id gs
  unfolding times
  times-append id [] gs = omega arith
  times-append id (f ∷ fs) gs = ground (arith, times-append id fs gs)

  -- A trade id is published once at most, and only if it is in the seen set then.
  abbrev pub AtMostOnce : FillIngestor F → Type 0
  AtMostOnce g =
      (id : String)
      → truthy id ≡ true
      → (times id g.published ≤ 1) × (member id g.seen ≡ false → times id g.published ≡ 0)

  submit-AtMostOnce :
      (g : FillIngestor F) (f : FillEvent F) → AtMostOnce g → AtMostOnce (submit g f).1
  unfolding submit times
  submit-AtMostOnce g f h id real = ground (
    arith,
    h id real,
    times-append id g.published (f ∷ []),
    eq_iff f.trade_id id,
    eq_iff f.trade_id "",
    eq_iff id "",
  )

  seed_fill-AtMostOnce :
      (g : FillIngestor F) (trade_id : Option String) (ts_ns : ℕ)
      → AtMostOnce g
      → AtMostOnce (seed_fill g trade_id ts_ns)
  seed_fill-AtMostOnce g none ts_ns h id real = h id real
  seed_fill-AtMostOnce g (some t) ts_ns h id real = ground (arith, h id real)

  seed-AtMostOnce :
      (envelopes : List (Envelope (LogEvent F))) (g : FillIngestor F)
      → AtMostOnce g
      → AtMostOnce (seed_from_log g envelopes)
  unfolding seed_from_log
  seed-AtMostOnce [] g h = h
  seed-AtMostOnce (e ∷ es) g h =
      seed-AtMostOnce es (seed_fill g (trade_id_of e.event) e.ts_ns)
        (seed_fill-AtMostOnce g (trade_id_of e.event) e.ts_ns h)

  submit_all-AtMostOnce :
      (fs : List (FillEvent F)) (g : FillIngestor F) → AtMostOnce g → AtMostOnce (submit_all g fs)
  unfolding submit_all
  submit_all-AtMostOnce [] g h = h
  submit_all-AtMostOnce (f ∷ fs) g h =
      submit_all-AtMostOnce fs (submit g f).1 (submit-AtMostOnce g f h)

  -- The log holds a fill with the trade id.
  abbrev pub fill_has : String → LogEvent F → Bool
  fill_has id event = elim (trade_id_of event) [ none ↦ false | some t ↦ str_eq t id ]

  abbrev pub log_has : String → List (Envelope (LogEvent F)) → Bool
  log_has id [] = false
  log_has id (e ∷ es) = if fill_has id e.event then true else log_has id es

  seed_fill-seen :
      (g : FillIngestor F) (id : String) (trade_id : Option String) (ts_ns : ℕ)
      → truthy id ≡ true
      → elim trade_id [ none ↦ false | some t ↦ str_eq t id ] ≡ true
      → member id (seed_fill g trade_id ts_ns).seen ≡ true
  seed_fill-seen g id none ts_ns real h = cc
  seed_fill-seen g id (some t) ts_ns real h = ground (arith, eq_iff t id, eq_iff t "", eq_iff id "")

  seed_fill-keeps :
      (g : FillIngestor F) (id : String) (trade_id : Option String) (ts_ns : ℕ)
      → member id g.seen ≡ true
      → member id (seed_fill g trade_id ts_ns).seen ≡ true
  seed_fill-keeps g id none ts_ns h = h
  seed_fill-keeps g id (some t) ts_ns h = ground arith

  seed-keeps :
      (es : List (Envelope (LogEvent F))) (g : FillIngestor F) (id : String)
      → member id g.seen ≡ true
      → member id (seed_from_log g es).seen ≡ true
  unfolding seed_from_log
  seed-keeps [] g id h = h
  seed-keeps (e ∷ es) g id h =
      seed-keeps es (seed_fill g (trade_id_of e.event) e.ts_ns) id
        (seed_fill-keeps g id (trade_id_of e.event) e.ts_ns h)

  seed-seen :
      (es : List (Envelope (LogEvent F))) (g : FillIngestor F) (id : String)
      → truthy id ≡ true
      → log_has id es ≡ true
      → member id (seed_from_log g es).seen ≡ true
  unfolding seed_from_log
  seed-seen [] g id real h = cc
  seed-seen (e ∷ es) g id real h = elim (Bool-cases (fill_has id e.event)) [
    | inl here ↦
        seed-keeps es (seed_fill g (trade_id_of e.event) e.ts_ns) id
          (seed_fill-seen g id (trade_id_of e.event) e.ts_ns real here)
    | inr later ↦ seed-seen es (seed_fill g (trade_id_of e.event) e.ts_ns) id real (rw later at h)
  ]

  seed_fill-published :
      (g : FillIngestor F) (trade_id : Option String) (ts_ns : ℕ)
      → (seed_fill g trade_id ts_ns).published ≡ g.published
  seed_fill-published g none ts_ns = refl
  seed_fill-published g (some t) ts_ns = ground arith

  seed-published :
      (es : List (Envelope (LogEvent F))) (g : FillIngestor F)
      → (seed_from_log g es).published ≡ g.published
  unfolding seed_from_log
  seed-published [] g = refl
  seed-published (e ∷ es) g =
      seed-published es (seed_fill g (trade_id_of e.event) e.ts_ns)
      ∙ seed_fill-published g (trade_id_of e.event) e.ts_ns

  submit-seen :
      (g : FillIngestor F) (f : FillEvent F) (id : String)
      → truthy id ≡ true
      → member id g.seen ≡ true
      → (member id (submit g f).1.seen ≡ true)
        × (times id (submit g f).1.published ≡ times id g.published)
  unfolding submit times
  submit-seen g f id real h = ground (
    arith,
    times-append id g.published (f ∷ []),
    eq_iff f.trade_id id,
    eq_iff f.trade_id "",
    eq_iff id "",
  )

  -- A trade id that was seen is not published again.
  submit_all-seen :
      (fs : List (FillEvent F)) (g : FillIngestor F) (id : String)
      → truthy id ≡ true
      → member id g.seen ≡ true
      → times id (submit_all g fs).published ≡ times id g.published
  unfolding submit_all
  submit_all-seen [] g id real h = refl
  submit_all-seen (f ∷ fs) g id real h =
      submit_all-seen fs (submit g f).1 id real (submit-seen g f id real h).0
      ∙ (submit-seen g f id real h).1

  -- A trade is admitted once: from a new ingestor that is seeded from a log, whatever fills are
  -- submitted, in any order and from any source, a trade id that is not empty is published once at
  -- most.
  pub published_at_most_once :
      (log : List (Envelope (LogEvent F))) (fs : List (FillEvent F)) (id : String)
      → truthy id ≡ true
      → times id (submit_all (seed_from_log new_ingestor log) fs).published ≤ 1
  unfolding times
  published_at_most_once log fs id real =
      (submit_all-AtMostOnce fs (seed_from_log new_ingestor log)
        (seed-AtMostOnce log new_ingestor (λ id real. (ground arith, λ _. refl))) id real).0

  -- A trade of the log is not admitted again: from a new ingestor that is seeded from a log, no fill
  -- with a trade id that is not empty and that a fill of the log bears is published.
  pub logged_never_published :
      (log : List (Envelope (LogEvent F))) (fs : List (FillEvent F)) (id : String)
      → truthy id ≡ true
      → log_has id log ≡ true
      → times id (submit_all (seed_from_log new_ingestor log) fs).published ≡ 0
  unfolding times
  logged_never_published log fs id real logged =
      submit_all-seen fs (seed_from_log new_ingestor log) id real
        (seed-seen log new_ingestor id real logged)
      ∙ ap (times id) (seed-published log new_ingestor)
