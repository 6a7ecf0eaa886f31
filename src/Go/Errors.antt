-- ===== src/Go/Errors.antt =====
-- Go's `error` values: what `errors.New`, `fmt.Errorf`, `errors.Join` and `web.NewError` build, with
-- `errors.Is` over them. An error keeps its format and its arguments; `error_text` renders them.
use Prim.Native.String.{String}
use commerce.Prelude.{
  ℕ, ℤ, Bool, true, false, ◌||◌, List, [], ◌∷◌, ◌++◌, Option, none, some, Text, text, nat_beq,
  format_int, if◌then◌else◌,
}

-- The errors that are compared by identity.
pub data Sentinel : Type 0 where
  invalid_reservation insufficient_stock : Sentinel
  invalid_payment declined : Sentinel
  invalid_order order_rejected : Sentinel
  invalid_record duplicate : Sentinel
  invalid_receipt delivery : Sentinel
  memory_duplicate memory_schema : Sentinel
  canceled deadline_exceeded : Sentinel
  tx_done server_closed eof : Sentinel

-- `web.Problem`.
pub record Problem : Type 0 where
  pub type : String
  pub title : String
  pub status : ℕ
  pub detail : String

-- `http_error p` is `web.NewError(p, nil)`; `foreign` is an error of other code, known by its text.
mutual
  pub data Error : Type 0 where
    sentinel : Sentinel → Error
    errors_new : String → Error
    errorf : String → Args → Error
    join_errors : Error → Error → Error
    http_error : Problem → Error
    http_error_of : Problem → Error → Error
    foreign : Text → Error

  pub data Args : Type 0 where
    end : Args
    wrapped : Error → Args → Args
    int_arg : ℤ → Args → Args
    text_arg : Text → Args → Args
    quoted : Text → Args → Args

pub Sentinel-discrete : Discrete Sentinel
Sentinel-discrete = hlevel

-- A number for each sentinel, by which they are compared.
abbrev pub sentinel_code : Sentinel → ℕ
sentinel_code Sentinel.invalid_reservation = 0
sentinel_code Sentinel.insufficient_stock = 1
sentinel_code Sentinel.invalid_payment = 2
sentinel_code Sentinel.declined = 3
sentinel_code Sentinel.invalid_order = 4
sentinel_code Sentinel.order_rejected = 5
sentinel_code Sentinel.invalid_record = 6
sentinel_code Sentinel.duplicate = 7
sentinel_code Sentinel.invalid_receipt = 8
sentinel_code Sentinel.delivery = 9
sentinel_code Sentinel.memory_duplicate = 10
sentinel_code Sentinel.memory_schema = 11
sentinel_code Sentinel.canceled = 12
sentinel_code Sentinel.deadline_exceeded = 13
sentinel_code Sentinel.tx_done = 14
sentinel_code Sentinel.server_closed = 15
sentinel_code Sentinel.eof = 16

abbrev pub same_sentinel : Sentinel → Sentinel → Bool
same_sentinel a b = nat_beq (sentinel_code a) (sentinel_code b)

-- `errors.Is`: the error itself, or any error that it wraps.
unfoldable mutual
  pub is_error : Error → Sentinel → Bool
  is_error (sentinel a) s = same_sentinel a s
  is_error (errors_new m) s = false
  is_error (errorf m args) s = is_wrapped args s
  is_error (join_errors a b) s = is_error a s || is_error b s
  is_error (http_error p) s = false
  is_error (http_error_of p e) s = is_error e s
  is_error (foreign t) s = false

  pub is_wrapped : Args → Sentinel → Bool
  is_wrapped end s = false
  is_wrapped (wrapped e args) s = is_error e s || is_wrapped args s
  is_wrapped (int_arg z args) s = is_wrapped args s
  is_wrapped (text_arg t args) s = is_wrapped args s
  is_wrapped (quoted t args) s = is_wrapped args s

-- `errors.Join` leaves out what is nil.
abbrev pub join_nonnil : Option Error → Option Error → Option Error
join_nonnil none b = b
join_nonnil (some a) none = some a
join_nonnil (some a) (some b) = some (join_errors a b)

abbrev pub sentinel_text : Sentinel → String
sentinel_text Sentinel.invalid_reservation = "invalid inventory reservation"
sentinel_text Sentinel.insufficient_stock = "insufficient inventory stock"
sentinel_text Sentinel.invalid_payment = "invalid payment"
sentinel_text Sentinel.declined = "payment declined"
sentinel_text Sentinel.invalid_order = "invalid order"
sentinel_text Sentinel.order_rejected = "order rejected"
sentinel_text Sentinel.invalid_record = "invalid order record"
sentinel_text Sentinel.duplicate = "order already exists"
sentinel_text Sentinel.invalid_receipt = "invalid commerce receipt"
sentinel_text Sentinel.delivery = "commerce receipt delivery failed"
sentinel_text Sentinel.memory_duplicate = "memory order already exists"
sentinel_text Sentinel.memory_schema = "memory order schema is not ready"
sentinel_text Sentinel.canceled = "context canceled"
sentinel_text Sentinel.deadline_exceeded = "context deadline exceeded"
sentinel_text Sentinel.tx_done = "sql: transaction has already been committed or rolled back"
sentinel_text Sentinel.server_closed = "http: Server closed"
sentinel_text Sentinel.eof = "EOF"

-- `%q`, with the escapes of the quotation mark, the backslash and the line feed.
quote_rune : ℕ → Text
quote_rune c =
    if nat_beq c 34
    then 92 ∷ 34 ∷ []
    else if nat_beq c 92
    then 92 ∷ 92 ∷ []
    else if nat_beq c 10
    then 92 ∷ b'n' ∷ []
    else c ∷ []

quote_runes : Text → Text
unfolding quote_rune
quote_runes [] = []
quote_runes (c ∷ s) = quote_rune c ++ quote_runes s

-- Each verb, a `%` and the letter after it, takes one argument.
render : Text → List Text → Text
render [] ts = []
render (c ∷ []) ts = c ∷ []
render (c ∷ v ∷ s) [] = elim (nat_beq c b'%') [ true ↦ render s [] | false ↦ c ∷ render (v ∷ s) [] ]
render (c ∷ v ∷ s) (t ∷ ts) = elim (nat_beq c b'%') [
  | true ↦ t ++ render s ts
  | false ↦ c ∷ render (v ∷ s) (t ∷ ts)
]

-- `HTTPError.Error()`, for a problem with its title set.
problem_text : Problem → Text
problem_text p = elim (text p.detail) [
  | [] ↦ text p.title
  | c ∷ s ↦ text p.title ++ (text ": " ++ c ∷ s)
]

-- `err.Error()`.
unfoldable mutual
  unfolding render quote_runes problem_text

  pub error_text : Error → Text
  error_text (sentinel a) = text (sentinel_text a)
  error_text (errors_new m) = text m
  error_text (errorf m args) = render (text m) (arg_texts args)
  error_text (join_errors a b) = error_text a ++ (10 ∷ error_text b)
  error_text (http_error p) = problem_text p
  error_text (http_error_of p e) = problem_text p
  error_text (foreign t) = t

  pub arg_texts : Args → List Text
  arg_texts end = []
  arg_texts (wrapped e args) = error_text e ∷ arg_texts args
  arg_texts (int_arg z args) = format_int z ∷ arg_texts args
  arg_texts (text_arg t args) = t ∷ arg_texts args
  arg_texts (quoted t args) = (34 ∷ (quote_runes t ++ 34 ∷ [])) ∷ arg_texts args
