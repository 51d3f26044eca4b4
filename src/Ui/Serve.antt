-- ===== src/Ui/Serve.antt =====
-- How the inspector of src/ui.rs starts: `serve` up to its listener.
use zincir.Prelude.{
  ℕ, ◌≡◌, Bool, true, ◌&&◌, ◌||◌, Option, none, some, String, List, [], ◌∷◌, ◌∙◌, ◌≤◌, sym, subst,
  false, ◌==◌, ◌⊎◌, inl, inr, str_eq, str_eq_iff, ◌+◌, if◌then◌else◌, arith, ◌↔◌, refl,
}
use zincir.Types.{Result, ok, err, invalid_state, not_loopback, schema_incomplete, invalid_address}
use zincir.Sql.{count}

infixl 5 ◌>>=◌ ◌>>◌
abbrev ◌>>=◌ : {A B : Type 0} → Result A → (A → Result B) → Result B
ok a >>= f = f a
err e >>= f = err e

abbrev ◌>>◌ : {A B : Type 0} → Result A → Result B → Result B
m >> k = m >>= λ _. k

-- `std::net::SocketAddr`: the octets of an IPv4 address, or the segments of an IPv6 address, and a port.
pub data SocketAddr : Type 0 where
  v4 : ℕ → ℕ → ℕ → ℕ → ℕ → SocketAddr
  v6 : ℕ → ℕ → ℕ → ℕ → ℕ → ℕ → ℕ → ℕ → ℕ → SocketAddr

-- `IpAddr::is_loopback`: 127.0.0.0/8, or ::1.
unfoldable pub is_loopback : SocketAddr → Bool
is_loopback (v4 a b c d port) = a == 127
is_loopback (v6 a b c d e f g h port) =
    a == 0 && (b == 0 && (c == 0 && (d == 0 && (e == 0 && (f == 0 && (g == 0 && h == 1))))))

-- A row of `sqlite_master`.
pub record SchemaRow : Type 0 where
  pub kind : String
  pub name : String

abbrev pub is_table : SchemaRow → Bool
is_table r =
    str_eq r.kind "table"
    && (str_eq r.name "agent_runs"
        || (str_eq r.name "events" || (str_eq r.name "steps" || str_eq r.name "timers")))

unfoldable pub validate_schema : List SchemaRow → Result (Unit {0})
unfolding count
validate_schema sqlite_master =
    if count is_table sqlite_master == 4 then ok tt else err (invalid_state schema_incomplete)

-- `parse` is `str::parse::<SocketAddr>`, which gives an address or the text of its error.
unfoldable pub parse_loopback_address : (String → SocketAddr ⊎ String) → String → Result SocketAddr
unfolding is_loopback
parse_loopback_address parse value = elim (parse value) [
  | inl address ↦ if is_loopback address then ok address else err (invalid_state not_loopback)
  | inr error ↦ err (invalid_state (invalid_address error))
]

abbrev pub or_default : Option String → String
or_default none = "127.0.0.1:8787"
or_default (some value) = value

-- What the process finds: the schema of the database if it opens, the variable ZINCIR_UI_ADDRESS, and
-- whether a listener can be bound.
pub record Surroundings : Type 0 where
  pub open_read_only_pool : Result (List SchemaRow)
  pub address_variable : Option String
  pub parse : String → SocketAddr ⊎ String
  pub bind : SocketAddr → Result (Unit {0})

-- The address that is listened on.
unfoldable pub serve : Surroundings → Result SocketAddr
unfolding validate_schema parse_loopback_address
serve s = do
  schema ← s.open_read_only_pool
  validate_schema schema
  address ← parse_loopback_address s.parse (or_default s.address_variable)
  s.bind address
  ok address

-- The tables of this name; `sqlite_master` has at most one row of a kind and a name.
abbrev pub is_called : String → SchemaRow → Bool
is_called name r = str_eq r.kind "table" && str_eq r.name name

-- A name is not two texts.
pub apart : (name a b : String) → str_eq a b ≡ false → str_eq name a ≡ true → str_eq name b ≡ false
apart name a b d e = subst (λ t. str_eq t b ≡ false) (sym ((str_eq_iff name a).0 e)) d

-- The number of rows that a row is.
abbrev pub once : Bool → ℕ
once b = if b then 1 else 0

one_name :
    (k : Bool) (name : String)
    → once (
        k
        && (str_eq name "agent_runs"
            || (str_eq name "events" || (str_eq name "steps" || str_eq name "timers"))))
      ≡ once (k && str_eq name "agent_runs")
        + once (k && str_eq name "events")
        + once (k && str_eq name "steps")
        + once (k && str_eq name "timers")
one_name k name = ground (
  arith,
  apart name "agent_runs" "events" refl,
  apart name "agent_runs" "steps" refl,
  apart name "agent_runs" "timers" refl,
  apart name "events" "steps" refl,
  apart name "events" "timers" refl,
  apart name "steps" "timers" refl,
)

counted :
    (rows : List SchemaRow)
    → count is_table rows
      ≡ count (is_called "agent_runs") rows
        + count (is_called "events") rows
        + count (is_called "steps") rows
        + count (is_called "timers") rows
unfolding count
counted [] = refl
counted (r ∷ rows) = ground (arith, one_name (str_eq r.kind "table") r.name, counted rows)

all_four :
    (rows : List SchemaRow)
    → ((name : String) → count (is_called name) rows ≤ 1)
    → count is_table rows ≡ 4
    → (count (is_called "agent_runs") rows ≡ 1)
      × (count (is_called "events") rows ≡ 1)
      × (count (is_called "steps") rows ≡ 1)
      × (count (is_called "timers") rows ≡ 1)
all_four rows one four = (
  omega (arith, four, one "agent_runs", one "events", one "steps", one "timers", counted rows),
  omega (arith, four, one "agent_runs", one "events", one "steps", one "timers", counted rows),
  omega (arith, four, one "agent_runs", one "events", one "steps", one "timers", counted rows),
  omega (arith, four, one "agent_runs", one "events", one "steps", one "timers", counted rows),
)

-- SQLite keeps at most one row of a kind and a name.
abbrev pub OneEach : Surroundings → Type 0
OneEach s =
    (schema : List SchemaRow) (name : String)
    → s.open_read_only_pool ≡ ok schema
    → count (is_called name) schema ≤ 1

-- 127.0.0.0/8, or ::1.
abbrev pub IsLoopback : SocketAddr → Type 0
IsLoopback (v4 a b c d port) = a ≡ 127
IsLoopback (v6 a b c d e f g h port) =
    (a ≡ 0) × (b ≡ 0) × (c ≡ 0) × (d ≡ 0) × (e ≡ 0) × (f ≡ 0) × (g ≡ 0) × (h ≡ 1)

-- What `serve` needs for an address.
abbrev pub Serves : Surroundings → SocketAddr → Type 0
Serves s address =
    (schema : List SchemaRow) × (s.open_read_only_pool ≡ ok schema)
    × (count (is_called "agent_runs") schema ≡ 1)
    × (count (is_called "events") schema ≡ 1)
    × (count (is_called "steps") schema ≡ 1)
    × (count (is_called "timers") schema ≡ 1)
    × (elim s.address_variable [ none ↦ s.parse "127.0.0.1:8787" | some value ↦ s.parse value ]
        ≡ inl address)
    × IsLoopback address
    × (s.bind address ≡ ok tt)

asked :
    (s : Surroundings)
    → s.parse (or_default s.address_variable)
      ≡ elim s.address_variable [ none ↦ s.parse "127.0.0.1:8787" | some value ↦ s.parse value ]
asked s = chosen s.address_variable
  where
    chosen :
        (o : Option String)
        → s.parse (or_default o)
          ≡ elim o [ none ↦ s.parse "127.0.0.1:8787" | some value ↦ s.parse value ]
    chosen none = refl
    chosen (some value) = refl

spelt_out : (address : SocketAddr) → is_loopback address ≡ true → IsLoopback address
unfolding is_loopback
spelt_out (v4 a b c d port) l = ground (arith, l)
spelt_out (v6 a b c d e f g h port) l = (
  ground (arith, l),
  ground (arith, l),
  ground (arith, l),
  ground (arith, l),
  ground (arith, l),
  ground (arith, l),
  ground (arith, l),
  ground (arith, l),
)

known_by_test : (address : SocketAddr) → IsLoopback address → is_loopback address ≡ true
unfolding is_loopback
known_by_test (v4 a b c d port) l = ground (arith, l)
known_by_test (v6 a b c d e f g h port) l = ground (arith, l)

module _ (s : Surroundings) (address : SocketAddr) (one : OneEach s) where
  bound :
      (schema : List SchemaRow) (a : SocketAddr) (b : Result (Unit {0}))
      → s.open_read_only_pool ≡ ok schema
      → s.parse (or_default s.address_variable) ≡ inl a
      → s.bind a ≡ b
      → serve s ≡ ok address
      → Serves s address
  unfolding serve
  bound schema a b o p q h =
      let four : count is_table schema ≡ 4 = ground (arith, o, p, q) in
      let (a_runs, a_events, a_steps, a_timers) =
        all_four schema (λ name. one schema name o) four in
      (
        schema,
        o,
        a_runs,
        a_events,
        a_steps,
        a_timers,
        sym (asked s) ∙ ground (arith, o, p, q),
        spelt_out address (ground (arith, o, p, q)),
        ground (arith, o, p, q),
      )

  parsed :
      (schema : List SchemaRow) (r : SocketAddr ⊎ String)
      → s.open_read_only_pool ≡ ok schema
      → s.parse (or_default s.address_variable) ≡ r
      → serve s ≡ ok address
      → Serves s address
  unfolding serve
  parsed schema (inl a) o p h = bound schema a (s.bind a) o p refl h
  parsed schema (inr error) o p h = absurd (ground (arith, o, p))

  opened :
      (r : Result (List SchemaRow))
      → s.open_read_only_pool ≡ r
      → serve s ≡ ok address
      → Serves s address
  unfolding serve
  opened (ok schema) o h = parsed schema (s.parse (or_default s.address_variable)) o refl h
  opened (err e) o h = absurd (ground (arith, o))

-- Where the schema has at most one row of a kind and a name, the inspector listens at an address exactly
-- when the database opens and has the tables agent_runs, events, steps and timers; the variable names
-- the address, or where it is not set the address is 127.0.0.1:8787; it is in 127.0.0.0/8 or is ::1; and
-- it can be bound.
pub serve_iff :
    (s : Surroundings) (address : SocketAddr)
    → OneEach s
    → (serve s ≡ ok address) ↔ Serves s address
unfolding serve
serve_iff s address one = (
  opened s address one s.open_read_only_pool refl,
  λ (schema, o, a, b, c, d, p, l, n).
      let four : count is_table schema ≡ 4 = omega (arith, a, b, c, d, counted schema) in
      ground (arith, o, four, asked s ∙ p, known_by_test address l, n),
)
