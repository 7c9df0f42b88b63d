-- ===== src/Registry/Frozen.antt =====
-- The snapshot of src/gateway/services/registry.py against the tables.
use llm_token_balancing_gate.Prelude.{
  ℕ, true, Option, none, some, List, [], ◌∷◌, ◌≡◌, refl, ap, inl, inr, All, All-keep, All-Elem,
  Elem, Elem-keep, keep, sym, subst, str_leb_total, str_leb_trans, ◌∙◌,
}
use llm_token_balancing_gate.Prelude.Sort.{
  IsOrder, Rearranged, sort, sort-Rearranged, Rearranged-keep, All-sort, Elem-sort, sort-IsSorted,
  IsSorted,
}
use llm_token_balancing_gate.Domain.Routing.{ModelSnapshot}
use llm_token_balancing_gate.Registry.{
  Model, ModelPrice, Tables, id_leb, list_enabled, price_at, priced, add_priced, snapshot_each,
  model_id_leb, snapshot,
}

-- The entry is an enabled model of the tables, with the price that is in effect.
pub record IsListed (t : Tables) (at : ℕ) (s : ModelSnapshot) : Type 0 where
  pub model : Model
  pub price : ModelPrice
  pub in_table : Elem model t.models
  pub is_enabled : model.enabled ≡ true
  pub at_price : price_at t model.id at ≡ some price
  pub frozen : s ≡ priced model price

id_leb-IsOrder : IsOrder id_leb
id_leb-IsOrder = record {
  total = λ a b. str_leb_total a.id b.id;
  trans = λ a b c. str_leb_trans a.id b.id c.id;
}

model_id_leb-IsOrder : IsOrder model_id_leb
model_id_leb-IsOrder = record {
  total = λ a b. str_leb_total a.model_id b.model_id;
  trans = λ a b c. str_leb_trans a.model_id b.model_id c.model_id;
}

module _ (t : Tables) (at : ℕ) where
  abbrev Enabled : Model → Type 0
  Enabled m = Elem m t.models × (m.enabled ≡ true)

  list_enabled-Enabled : All Enabled (list_enabled t)
  unfolding list_enabled
  list_enabled-Enabled = All-sort id_leb Enabled (keep (λ m. m.enabled) t.models) (
      All-keep (λ m. Elem m t.models) Enabled (λ m. m.enabled) t.models (λ m h e. (h, e))
        (All-Elem t.models))

  add_priced-IsListed :
      (m : Model) (o : Option ModelPrice) (rest : List ModelSnapshot)
      → price_at t m.id at ≡ o
      → Enabled m
      → All (IsListed t at) rest
      → All (IsListed t at) (add_priced m o rest)
  add_priced-IsListed m none rest e h ih = ih
  add_priced-IsListed m (some p) rest e h ih = (
    record { model = m; price = p; in_table = h.0; is_enabled = h.1; at_price = e; frozen = refl },
    ih,
  )

  snapshot_each-IsListed :
      (ms : List Model) → All Enabled ms → All (IsListed t at) (snapshot_each t at ms)
  unfolding snapshot_each
  snapshot_each-IsListed [] h = tt
  snapshot_each-IsListed (m ∷ ms) h =
      add_priced-IsListed m (price_at t m.id at) (snapshot_each t at ms) refl h.0
        (snapshot_each-IsListed ms h.1)

  pub snapshot-IsListed : All (IsListed t at) (snapshot t at).models
  unfolding snapshot
  snapshot-IsListed =
      All-sort model_id_leb (IsListed t at) (snapshot_each t at (list_enabled t))
        (snapshot_each-IsListed (list_enabled t) list_enabled-Enabled)

  add_priced-tail :
      (s : ModelSnapshot) (m : Model) (o : Option ModelPrice) (rest : List ModelSnapshot)
      → Elem s rest
      → Elem s (add_priced m o rest)
  add_priced-tail s m none rest h = h
  add_priced-tail s m (some p) rest h = inr h

  snapshot_each-Elem :
      (m : Model) (p : ModelPrice) (ms : List Model)
      → Elem m ms
      → price_at t m.id at ≡ some p
      → Elem (priced m p) (snapshot_each t at ms)
  unfolding snapshot_each
  snapshot_each-Elem m p [] h e = absurd h
  snapshot_each-Elem m p (n ∷ ms) (inl q) e =
      subst (λ o. Elem (priced m p) (add_priced n o (snapshot_each t at ms)))
        (sym e ∙ ap (λ (k : Model). price_at t k.id at) q) (inl (ap (λ k. priced k p) q))
  snapshot_each-Elem m p (n ∷ ms) (inr h) e =
      add_priced-tail (priced m p) n (price_at t n.id at) (snapshot_each t at ms)
        (snapshot_each-Elem m p ms h e)

  -- A snapshot holds exactly the enabled models that have a price in effect, each with that price, in
  -- the order of their ids.
  pub snapshot_exact :
      IsSorted model_id_leb (snapshot t at).models
      × All (IsListed t at) (snapshot t at).models
      × ((m : Model) (p : ModelPrice)
          → Elem m t.models
          → m.enabled ≡ true
          → price_at t m.id at ≡ some p
          → Elem (priced m p) (snapshot t at).models)
  unfolding snapshot list_enabled
  snapshot_exact = (
    sort-IsSorted model_id_leb model_id_leb-IsOrder (snapshot_each t at (list_enabled t)),
    snapshot-IsListed,
    λ m p h e f. Elem-sort model_id_leb (priced m p) (snapshot_each t at (list_enabled t)) (
        snapshot_each-Elem m p (list_enabled t)
          (Elem-sort id_leb m (keep (λ n. n.enabled) t.models)
            (Elem-keep (λ n. n.enabled) m t.models h e))
          f),
  )

-- The models in the tables are read before the prices are.
snapshot_each-prices :
    (t : Tables) (models : List Model) (at : ℕ) (ms : List Model)
    → snapshot_each (record t { models = models }) at ms ≡ snapshot_each t at ms
unfolding snapshot_each
snapshot_each-prices t models at [] = refl
snapshot_each-prices t models at (m ∷ ms) =
    ap (add_priced m (price_at t m.id at)) (snapshot_each-prices t models at ms)

-- The order of the rows of the table of models does not matter to a snapshot, as long as their ids
-- differ.
pub snapshot-Rearranged :
    (models : List Model) (t : Tables) (at : ℕ)
    → Rearranged id_leb t.models models
    → snapshot t at ≡ snapshot (record t { models = models }) at
unfolding snapshot list_enabled
snapshot-Rearranged models t at r =
    let read = sort-Rearranged id_leb id_leb-IsOrder (Rearranged-keep id_leb (λ m. m.enabled) r) in
    ap (λ ms. record { taken_at = at; models = sort model_id_leb ms })
      (ap (snapshot_each t at) read
        ∙ sym (snapshot_each-prices t models at (sort id_leb (keep (λ m. m.enabled) models))))
