-- ===== src/Record/Load/Reader.antt =====
-- internal/fetch/record/event.go: the loop of `LoadTendermint`, which goes over the attributes in
-- order, logs those that it does not know, and stops at the first one that is malformed.
use Prim.Native.String.{String}
use midgard.Base.{ℕ, Bool, true, false, Option, none, some, List, [], ◌∷◌, ◌++◌}
use midgard.Base.Bytes.{Bytes, Slice, codes, same, to_lower}
use midgard.Record.Blocks.{Attribute}

-- What the program takes from its settings, `config.Global.CaseInsensitiveChains`, and
-- `strconv.ParseFloat`, whose result is a bit pattern.
pub record Settings : Type 0 where
  pub case_insensitive_chains : Bytes → Bool
  pub parse_float : Bytes → Option ℕ

-- The errors: `empty_amount` is told from the others by the caller. `malformed` has the text that
-- the error starts with. No reader runs out of fuel.
pub data LoadError : Type 0 where
  empty_amount out_of_fuel : LoadError
  malformed : String → LoadError

-- An event or an error, with the lines that were logged on the way.
pub data Load (A : Type 0) : Type 0 where
  loaded : A → List String → Load A
  failed : LoadError → List String → Load A

abbrev pub after_logs : {A : Type 0} → List String → Load A → Load A
after_logs logs (loaded a more) = loaded a (logs ++ more)
after_logs logs (failed err more) = failed err (logs ++ more)

infixl 5 ◌>>=◌
abbrev pub ◌>>=◌ : {A B : Type 0} → Load A → (A → Load B) → Load B
loaded a logs >>= f = after_logs logs (f a)
failed err logs >>= f = failed err logs

abbrev pub ok : {A : Type 0} → A → Load A
ok a = loaded a []

abbrev pub fail : {A : Type 0} → String → Load A
fail text = failed (malformed text) []

-- What was read becomes a field of the event.
abbrev pub set : {A E : Type 0} → Load A → (A → E) → Load E
set m f = m >>= λ a. ok (f a)

-- `miderr.LogEventParseErrorF`; the line stands for its format.
abbrev pub unknown : {A : Type 0} → String → A → Load A
unknown line e = loaded e (line ∷ [])

abbrev pub is : Attribute → String → Bool
is a key = same a.key (codes key)

-- `for _, attr := range attrs`
unfoldable pub each : {A : Type 0} → (Attribute → A → Load A) → List Attribute → A → Load A
each read [] e = ok e
each read (a ∷ rest) e = read a e >>= each read rest

-- `util.ToLowerBytes`
abbrev pub to_lower_bytes : Slice → Slice
to_lower_bytes none = none
to_lower_bytes (some b) = some (to_lower b)

abbrev pub is_nil : Slice → Bool
is_nil none = true
is_nil (some _) = false
