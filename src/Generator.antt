-- ===== src/Generator.antt =====
-- pkg/generator/etcd.go: the generator of node ids and ports. The calls of `generateValue` for one key,
-- of one node or of several, are processes that share the store: a round of the loop is a read and a
-- compare-and-swap, and anything may happen between the two. A call that returns, and one whose round
-- failed, have nothing in hand.
use ws_gateway.Common.{ℕ, Bool, true, false, Option, none, some, List, [], ◌∷◌, if◌then◌else◌, ◌==◌}
use ws_gateway.Common.Int.{ℤ, pos, add64}
use ws_gateway.Common.Keys.{Text}
use ws_gateway.Common.Format.{show_int}
use ws_gateway.Common.Parse.{parse_int}
use ws_gateway.Errors.{Error, other}
pub mod Increasing
mod Tests

-- etcd: `Get`, and the transactions that put a value if the key does not exist, and if it has a
-- revision. The answer `none` is an error; a transaction that answers an error may have taken place.
pub record Etcd : Type 1 where
  pub State : Type 0
  pub get : Text → State → Option (Option (Text × ℕ)) × State
  pub create : Text → Text → State → Option Bool × State
  pub swap : Text → ℕ → Text → State → Option Bool × State

-- What the first half of a round comes to.
pub data Seen : Type 0 where
  retries fails : Seen
  holds : ℤ → ℕ → Seen

abbrev pub parsed : Option ℤ → ℕ → Seen
parsed none rev = fails
parsed (some v) rev = holds v rev

abbrev pub read_value : Option (Option (Text × ℕ)) → Seen
read_value none = retries
read_value (some none) = fails
read_value (some (some (text, rev))) = parsed (parse_int text) rev

pub data Event : Type 0 where
  initializes : ℤ → Event
  reads commits : ℕ → Event

-- "/service/gateway/gen/id" and "/service/gateway/gen/port"
abbrev pub id_gen_prefix : Text → Text
id_gen_prefix rest =
    47 ∷ 115 ∷ 101 ∷ 114 ∷ 118 ∷ 105 ∷ 99 ∷ 101 ∷ 47 ∷ 103 ∷ 97 ∷ 116 ∷ 101 ∷ 119 ∷ 97 ∷ 121 ∷ 47
    ∷ 103 ∷ 101 ∷ 110 ∷ 47 ∷ rest

abbrev pub node_id_key : Text
node_id_key = id_gen_prefix (105 ∷ 100 ∷ [])

abbrev pub port_key : Text
port_key = id_gen_prefix (112 ∷ 111 ∷ 114 ∷ 116 ∷ [])

abbrev pub assign {ℓ} : {A : Type ℓ} → ℕ → A → (ℕ → A) → ℕ → A
assign i a f j = if i == j then a else f j

module _ (E : Etcd) where
  open E use {State}

  pub record Generators : Type 0 where
    pub store : State
    -- What a process read: the value and its revision.
    pub held : ℕ → Option (ℤ × ℕ)
    -- What the calls returned, the latest first.
    pub generated : List ℤ

  abbrev committed : Option Bool → Option Error
  committed none = some (other ∷ [])
  committed (some b) = none

  unfoldable pub initialize_key : Text → ℤ → State → Option Error × State
  initialize_key key value s = let r = E.create key (show_int value) s in (committed r.0, r.1)

  unfoldable pub new_etcd_id_generator : ℤ → ℤ → State → Option Error × State
  new_etcd_id_generator initial_node_id initial_port s =
      let r = initialize_key node_id_key initial_node_id s in
      elim r.0 [ some e ↦ (some e, r.1) | none ↦ initialize_key port_key initial_port r.1 ]

  abbrev pub see : ℕ → Seen → Generators → Generators
  see i (holds v rev) g = record g { held = assign i (some (v, rev)) g.held }
  see i s g = g

  -- From the top of the loop to the parsed value.
  unfoldable pub begin_round : Text → ℕ → Option (ℤ × ℕ) → Generators → Generators
  begin_round key i (some h) g = g
  begin_round key i none g =
      let r = E.get key g.store in see i (read_value r.0) (record g { store = r.1 })

  abbrev pub answered : ℕ → ℤ → Option Bool → Generators → Generators
  answered i next (some true) g = record g {
    held = assign i none g.held;
    generated = next ∷ g.generated;
  }
  answered i next o g = record g { held = assign i none g.held }

  -- The compare-and-swap, and its answer.
  unfoldable pub end_round : Text → ℕ → Option (ℤ × ℕ) → Generators → Generators
  end_round key i none g = g
  end_round key i (some (v, rev)) g =
      let next = add64 v (pos 1) in
      let r = E.swap key rev (show_int next) g.store in
      answered i next r.0 (record g { store = r.1 })

  unfoldable pub step : Text → Event → Generators → Generators
  step key (initializes v) g = record g { store = (initialize_key key v g.store).1 }
  step key (reads i) g = begin_round key i (g.held i) g
  step key (commits i) g = end_round key i (g.held i) g

  unfoldable pub run : Text → List Event → Generators → Generators
  run key [] g = g
  run key (e ∷ es) g = run key es (step key e g)
