-- ===== src/Effects/Prepared.antt =====
-- rust/sim-core/src/prepared.rs: `effects_of`, and model.rs: what it returns. The decoder of base64
-- and the printer of a timestamp are third-party code: parameters.
use canton_assurance_layer.Prelude.{
  ℕ, ◌+◌, ◌-◌, ◌/◌, ◌%◌, Bool, List, [], ◌∷◌, Option, none, some, Text, Bytes, ltb, ◌==◌, map, keys,
  contains_key, if◌then◌else◌, Result, ok, ok_or, map_err, ◌>>=◌,
}
use canton_assurance_layer.Prelude.Space.{trim}
use canton_assurance_layer.Effects.Model.{BTreeSet, EffectCounts, EffectNode, Create, Node, Walk}
use canton_assurance_layer.Effects.{Exhausted, template_string, walk_all}

pub data EffectsError : Type 0 where
  missing_transaction : EffectsError
  not_walked : Exhausted → EffectsError

pub record InputContract : Type 0 where
  pub contract_id : Text
  pub template_id : Option Text
  pub created_at : Option Text
  pub signatories : List Text
  pub stakeholders : List Text
  pub consumed : Bool

pub record SubmitterInfo : Type 0 where
  pub act_as : List Text
  pub command_id : Text

abbrev pub no_submitter : SubmitterInfo
no_submitter = record { act_as = []; command_id = [] }

module _ (LfValue : Type 0) where
  pub record Transaction : Type 0 where
    pub version : Text
    pub roots : List Text
    -- with the ids; `none` where the versioned node is missing
    pub nodes : List (Text × Option (Node LfValue))

  -- An input contract of the metadata: its create, and when it was created.
  pub record Input : Type 0 where
    pub contract : Option (Create LfValue)
    pub created_at : ℕ

  pub record Metadata : Type 0 where
    pub input_contracts : List Input
    pub submitter_info : Option SubmitterInfo
    pub synchronizer_id : Text
    pub mediator_group : ℕ
    pub transaction_uuid : Text
    pub preparation_time : ℕ
    pub min_ledger_effective_time : Option ℕ
    pub max_ledger_effective_time : Option ℕ
    pub max_record_time : Option ℕ

  pub record PreparedTransaction : Type 0 where
    pub transaction : Option Transaction
    pub metadata : Option Metadata

module _ (Value : Type 0) where
  pub record Effects : Type 0 where
    pub transaction_version : Text
    pub roots : List Text
    pub nodes : List (EffectNode Value)
    pub counts : EffectCounts
    pub informees : List Text
    pub input_contracts : List InputContract
    pub act_as : List Text
    pub command_id : Text
    pub synchronizer_id : Text
    pub mediator_group : ℕ
    pub transaction_uuid : Text
    pub preparation_time : Option Text
    pub min_ledger_effective_time : Option Text
    pub max_ledger_effective_time : Option Text
    pub max_record_time : Option Text
    pub prepared_size_bytes : ℕ
    pub prepared_transaction_hash_hex : Text
    pub hashing_scheme_version : Text

-- One digit, and a byte as two: `{x:02x}`.
abbrev pub hex_char : ℕ → ℕ
hex_char n = if ltb n 10 then b'0' + n else b'a' + (n - 10)

unfoldable pub hex_text : Bytes → Text
hex_text [] = []
hex_text (x ∷ bytes) = hex_char (x / 16) ∷ (hex_char (x % 16) ∷ hex_text bytes)

-- What the function needs of third-party code: `from_timestamp_micros` with `to_rfc3339_opts`, and
-- the decoder of base64.
pub record Library : Type 0 where
  pub rfc3339 : ℕ → Option Text
  pub base64_decode : Text → Option Bytes

module _ (library : Library) where
  unfoldable pub micros_to_rfc3339 : ℕ → Option Text
  micros_to_rfc3339 micros = if micros == 0 then none else library.rfc3339 micros

  abbrev pub time_of : Option ℕ → Option Text
  time_of none = none
  time_of (some micros) = micros_to_rfc3339 micros

  abbrev pub hash_hex : Option Bytes → Text
  hash_hex none = []
  hash_hex (some bytes) = hex_text bytes

  abbrev pub submitter_of : Option SubmitterInfo → SubmitterInfo
  submitter_of none = no_submitter
  submitter_of (some submitter) = submitter

  module _ {LfValue Value : Type 0} (value_to_json : LfValue → Value) where
    abbrev pub no_metadata : Metadata LfValue
    no_metadata = record {
      input_contracts = [];
      submitter_info = none;
      synchronizer_id = [];
      mediator_group = 0;
      transaction_uuid = [];
      preparation_time = 0;
      min_ledger_effective_time = none;
      max_ledger_effective_time = none;
      max_record_time = none;
    }

    abbrev pub metadata_or : Option (Metadata LfValue) → Metadata LfValue
    metadata_or none = no_metadata
    metadata_or (some meta) = meta

    abbrev pub input_contract : BTreeSet → Option Text → Option (Create LfValue) → InputContract
    input_contract consumed created_at none = record {
      contract_id = [];
      template_id = none;
      created_at = created_at;
      signatories = [];
      stakeholders = [];
      consumed = contains_key [] consumed;
    }
    input_contract consumed created_at (some c) = record {
      contract_id = c.contract_id;
      template_id = template_string c.template_id;
      created_at = created_at;
      signatories = c.signatories;
      stakeholders = c.stakeholders;
      consumed = contains_key c.contract_id consumed;
    }

    abbrev pub effects_from :
        Transaction LfValue
        → Metadata LfValue
        → SubmitterInfo
        → ℕ
        → Text
        → Text
        → Walk Value
        → Effects Value
    effects_from tx meta submitter size hash scheme walked = record {
      transaction_version = tx.version;
      roots = tx.roots;
      nodes = walked.nodes;
      counts = walked.counts;
      informees = keys walked.informees;
      input_contracts =
          map
            (λ (i : Input LfValue).
              input_contract walked.consumed (micros_to_rfc3339 i.created_at) i.contract)
            meta.input_contracts;
      act_as = submitter.act_as;
      command_id = submitter.command_id;
      synchronizer_id = meta.synchronizer_id;
      mediator_group = meta.mediator_group;
      transaction_uuid = meta.transaction_uuid;
      preparation_time = micros_to_rfc3339 meta.preparation_time;
      min_ledger_effective_time = time_of meta.min_ledger_effective_time;
      max_ledger_effective_time = time_of meta.max_ledger_effective_time;
      max_record_time = time_of meta.max_record_time;
      prepared_size_bytes = size;
      prepared_transaction_hash_hex = hash_hex (library.base64_decode (trim hash));
      hashing_scheme_version = scheme;
    }

    unfoldable pub effects_of :
        PreparedTransaction LfValue → ℕ → Text → Text → Bool → Result EffectsError (Effects Value)
    effects_of prepared size hash scheme include_arguments = do
      tx ← ok_or prepared.transaction missing_transaction
      let meta = metadata_or prepared.metadata
      walked ← map_err not_walked (walk_all value_to_json include_arguments tx.roots tx.nodes)
      ok (effects_from tx meta (submitter_of meta.submitter_info) size hash scheme walked)
