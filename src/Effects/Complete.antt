-- ===== src/Effects/Complete.antt =====
-- What `effects_of` returns of a prepared transaction.
use canton_assurance_layer.Prelude.{
  ℕ, ◌≡◌, refl, ap, ◌∙◌, Bool, true, false, List, [], ◌∷◌, Option, none, some, Text, text_eq,
  BTreeMap, get, get-insert, insert, length, if◌then◌else◌, ok,
}
use canton_assurance_layer.Effects.Model.{Node}
use canton_assurance_layer.Effects.{index_nodes}
use canton_assurance_layer.Effects.Prepared.{
  Transaction, PreparedTransaction, Effects, Library, metadata_or, submitter_of, effects_from,
  effects_of,
}
use canton_assurance_layer.Effects.Visit.{listed, one_if, is_known, counted}
use canton_assurance_layer.Effects.Listed.{walk_all-listed}
use canton_assurance_layer.Effects.Fuel.{walk_all-total}

module _ {LfValue : Type 0} where
  abbrev pub later_or_this : Option (Node LfValue) → Option (Node LfValue) → Option (Node LfValue)
  later_or_this none this = this
  later_or_this (some later) this = some later

  -- The last node of the id that has a version, in the list that the transaction is.
  unfoldable pub last_node : Text → List (Text × Option (Node LfValue)) → Option (Node LfValue)
  last_node id [] = none
  last_node id ((j, v) ∷ nodes) =
      later_or_this (last_node id nodes) (if text_eq j id then v else none)

  get-index_nodes :
      (nodes : List (Text × Option (Node LfValue))) (by_id : BTreeMap (Node LfValue)) (id : Text)
      → get id (index_nodes nodes by_id) ≡ later_or_this (last_node id nodes) (get id by_id)
  unfolding index_nodes last_node
  get-index_nodes [] by_id id = refl
  get-index_nodes ((j, none) ∷ nodes) by_id id =
      get-index_nodes nodes by_id id ∙ unchanged (last_node id nodes) (text_eq j id)
    where
      unchanged :
          (o : Option (Node LfValue)) (b : Bool)
          → later_or_this o (get id by_id)
            ≡ later_or_this (later_or_this o (if b then none else none)) (get id by_id)
      unchanged none true = refl
      unchanged none false = refl
      unchanged (some x) b = refl
  get-index_nodes ((j, some v) ∷ nodes) by_id id =
      get-index_nodes nodes (insert j v by_id) id
      ∙ ap (λ o. later_or_this (last_node id nodes) o) (get-insert j id v by_id)
      ∙ regroup (last_node id nodes) (text_eq j id)
    where
      regroup :
          (o : Option (Node LfValue)) (b : Bool)
          → later_or_this o (if b then some v else get id by_id)
            ≡ later_or_this (later_or_this o (if b then some v else none)) (get id by_id)
      regroup none true = refl
      regroup none false = refl
      regroup (some x) b = refl

  kept : (o : Option (Node LfValue)) → later_or_this o none ≡ o
  kept none = refl
  kept (some v) = refl

module _ (library : Library) {LfValue Value : Type 0} (value_to_json : LfValue → Value) where
  -- Where a prepared transaction has its transaction, `effects_of` returns, whatever the roots and
  -- nodes are, also where nodes are missing or are their own descendants; in what it returns, an id is
  -- listed exactly once if the last of the transaction's nodes with that id and a version is of a
  -- known type, and otherwise not at all, so that of nodes with one id only the last can be listed;
  -- and the creates, exercises, fetches and rollbacks that are counted are as many as the nodes that
  -- are listed.
  pub effects_of-total :
      (prepared : PreparedTransaction LfValue) (size : ℕ) (hash scheme : Text)
      (include_arguments : Bool) (tx : Transaction LfValue)
      → prepared.transaction ≡ some tx
      → (e : Effects Value) × (effects_of library value_to_json prepared size hash scheme
            include_arguments
          ≡ ok e)
        × ((id : Text) → listed id e.nodes ≡ one_if (is_known (last_node id tx.nodes)))
        × (counted e.counts ≡ length e.nodes)
  unfolding effects_of
  effects_of-total prepared size hash scheme include_arguments tx h =
      let (walked, w) = walk_all-total value_to_json include_arguments tx.roots tx.nodes in
      let (once, counts) =
        walk_all-listed value_to_json include_arguments tx.roots tx.nodes walked w in
      let meta = metadata_or library value_to_json prepared.metadata in
      (
        effects_from library value_to_json tx meta (submitter_of library meta.submitter_info) size
            hash scheme walked,
        rw (h, w) refl,
        (λ id.
            once id
            ∙ ap (λ o. one_if (is_known o))
                (get-index_nodes tx.nodes [] id ∙ kept (last_node id tx.nodes))),
        counts,
      )
