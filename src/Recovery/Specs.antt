-- ===== src/Recovery/Specs.antt =====
-- What `_reconcile_instrument` of hobo/log/recovery.py makes of the instruments.
use hobo.Prelude.{
  String, ◌≡◌, refl, sym, ap, ◌∙◌, inl, inr, false, Bool-cases, some, List, [], ◌∷◌, All,
  if◌then◌else◌, str_eq, eq_iff, eq_refl, arith, Result, Result-cases, ok, Outcome, returned,
  raised, after,
}
use hobo.Prelude.Dict
use hobo.Prelude.Dict.{Dict, get-set}
use hobo.Float.{Num}
use hobo.Risk.Model.{ContractSpec, Instrument, from_spec}
use hobo.Risk.State.{State}
use hobo.Recovery.{Warning, warned, spec_eq, set_instrument, reconcile_instrument}

-- The keys of a dictionary are distinct.
abbrev pub Distinct : {V : Type 0} → Dict V → Type 0
Distinct [] = Unit
Distinct {V} ((k, v) ∷ d) = All (λ (e : String × V). str_eq k e.0 ≡ false) d × Distinct d

module _ {V : Type 0} where
  get_behind :
      (j : String) (v : V) (d l : Dict V)
      → All (λ (e : String × V). str_eq j e.0 ≡ false) l
      → All (λ (e : String × V). Dict.get d e.0 ≡ some e.1) l
      → All (λ (e : String × V). Dict.get ((j, v) ∷ d) e.0 ≡ some e.1) l
  unfolding Dict.get
  get_behind j v d [] other h = tt
  get_behind j v d (e ∷ l) other h = (rw other.0 h.0, get_behind j v d l other.1 h.1)

  -- Each entry of a dictionary is found.
  get_self : (d : Dict V) → Distinct d → All (λ (e : String × V). Dict.get d e.0 ≡ some e.1) d
  unfolding Dict.get
  get_self [] h = tt
  get_self ((j, v) ∷ d) h = (rw (eq_refl j) refl, get_behind j v d d h.0 (get_self d h.1))

module _ {F : Type 0} ⦃n : Num F⦄ where
  pub warned-returned :
      (w : Warning F) (o : Outcome (State F) (List (Warning F))) (ws : List (Warning F))
      (s : State F)
      → warned w o ≡ returned ws s
      → (vs : List (Warning F)) × (o ≡ returned vs s)
  warned-returned w (returned vs t) ws s h = (vs, cc)
  warned-returned w (raised e t) ws s h = cc

  -- The instrument that the venue's spec makes of `i`: the spec, with the instrument's own margin
  -- rate, where the two specs differ.
  abbrev pub adopted : Instrument F → ContractSpec F → Instrument F
  adopted i fresh = if spec_eq fresh i.spec then i else from_spec fresh i.maintenance_margin_rate

  abbrev Holds : State F → String × Instrument F → Type 0
  Holds s e = Dict.get s.instruments e.0 ≡ some e.1

  abbrev Adopts : (String → Result (ContractSpec F)) → State F → String × Instrument F → Type 0
  Adopts fetch s e =
      (fresh : ContractSpec F) × (fetch e.0 ≡ ok fresh)
      × (Dict.get s.instruments e.0 ≡ some (adopted e.1 fresh))

  Holds-set :
      (s : State F) (k : String) (i : Instrument F) (es : Dict (Instrument F))
      → All (λ (e : String × Instrument F). str_eq k e.0 ≡ false) es
      → All (Holds s) es
      → All (Holds (set_instrument s k i)) es
  Holds-set s k i [] other h = tt
  Holds-set s k i ((j, v) ∷ es) other h =
      (get-set s.instruments k j i ∙ rw other.0 h.0, Holds-set s k i es other.1 h.1)

  -- What is not among the instruments that are left stays.
  reconcile_instrument-keeps :
      (fetch : String → Result (ContractSpec F)) (es : Dict (Instrument F)) (s s' : State F)
      (ws : List (Warning F)) (k : String)
      → All (λ (e : String × Instrument F). str_eq k e.0 ≡ false) es
      → reconcile_instrument fetch s es ≡ returned ws s'
      → Dict.get s'.instruments k ≡ Dict.get s.instruments k
  unfolding reconcile_instrument
  reconcile_instrument-keeps fetch [] s s' ws k other h =
      sym (ap (λ (t : State F). Dict.get t.instruments k) (ap after h))
  reconcile_instrument-keeps fetch ((j, i) ∷ es) s s' ws k other h = elim (Result-cases (fetch j)) [
    | inr (e, q) ↦ cc (rw (q, reconcile_instrument) at h)
    | inl (fresh, q) ↦ elim (Bool-cases (spec_eq fresh i.spec)) [
      | inl same ↦
          reconcile_instrument-keeps fetch es s s' ws k other.1
            (rw (q, reconcile_instrument, same) at h)
      | inr drift ↦
          let changed = from_spec fresh i.maintenance_margin_rate in
          let (vs, rest) = warned-returned _ _ ws s' (rw (q, reconcile_instrument, drift) at h) in
          reconcile_instrument-keeps fetch es (set_instrument s j changed) s' vs k other.1 rest
          ∙ get-set s.instruments j k changed
          ∙ ground (arith, eq_iff k j, eq_iff j k, other.0)
    ]
  ]

  reconcile_instrument-each :
      (fetch : String → Result (ContractSpec F)) (es : Dict (Instrument F)) (s s' : State F)
      (ws : List (Warning F))
      → Distinct es
      → All (Holds s) es
      → reconcile_instrument fetch s es ≡ returned ws s'
      → All (Adopts fetch s') es
  unfolding reconcile_instrument
  reconcile_instrument-each fetch [] s s' ws d holds h = tt
  reconcile_instrument-each fetch ((j, i) ∷ es) s s' ws d holds h = elim (Result-cases (fetch j)) [
    | inr (e, q) ↦ cc (rw (q, reconcile_instrument) at h)
    | inl (fresh, q) ↦ elim (Bool-cases (spec_eq fresh i.spec)) [
      | inl same ↦
          let rest = rw (q, reconcile_instrument, same) at h in
          (
            (
              fresh,
              q,
              reconcile_instrument-keeps fetch es s s' ws j d.0 rest ∙ holds.0 ∙ rw same refl,
            ),
            reconcile_instrument-each fetch es s s' ws d.1 holds.1 rest,
          )
      | inr drift ↦
          let changed = from_spec fresh i.maintenance_margin_rate in
          let (vs, rest) = warned-returned _ _ ws s' (rw (q, reconcile_instrument, drift) at h) in
          (
            (
              fresh,
              q,
              reconcile_instrument-keeps fetch es (set_instrument s j changed) s' vs j d.0 rest
                  ∙ get-set s.instruments j j changed
                  ∙ rw (eq_refl j, drift) refl,
            ),
            reconcile_instrument-each fetch es (set_instrument s j changed) s' vs d.1
                (Holds-set s j changed es d.0 holds.1) rest,
          )
    ]
  ]

  -- The engine trades on the venue's specs: where the reconciliation of the instruments returns, the
  -- venue answered for each of them, and each is as the answer makes it: itself where its spec is the
  -- venue's, and otherwise the venue's spec with the instrument's own maintenance margin rate.
  pub reconcile_instrument-adopts :
      (fetch : String → Result (ContractSpec F)) (s s' : State F) (ws : List (Warning F))
      → Distinct s.instruments
      → reconcile_instrument fetch s s.instruments ≡ returned ws s'
      → All
          (λ (e : String × Instrument F).
            (fresh : ContractSpec F) × (fetch e.0 ≡ ok fresh)
            × (Dict.get s'.instruments e.0 ≡ some (adopted e.1 fresh)))
          s.instruments
  reconcile_instrument-adopts fetch s s' ws d h =
      reconcile_instrument-each fetch s.instruments s s' ws d (get_self s.instruments d) h
