-- ===== src/Core/Router.antt =====
-- core/router.go. Package reflect and the protobuf library are parameters; a reflect.Type is a
-- number. M: the messages; C: the connections that a response is sent on.
use mine_net.Base.{
  ℕ, ◌≡◌, Bool, true, false, Option, none, some, List, [], ◌∷◌, Outcome, ok, err, panic, ◌>>=◌,
  ◌>>◌, String, ◌==◌,
}
use mine_net.Base.Map.{Map, nat_key, string_key, lookup, insert}
use mine_net.Network.Packet.Transform.{Bytes}
use mine_net.Core.Errors.{
  RouterError, not_a_function, not_two_parameters, not_a_context, not_the_message, wrong_results,
  not_a_message, not_an_error, invalid_handler,
}

-- proto/common's BaseMessage.
pub record BaseMessage : Type 0 where
  pub msg_type : ℕ
  pub payload : Bytes
  pub request_id : ℕ

-- `elem` panics on a type that has no elements; `struct_of` takes a pointer off, if there is one.
pub record Reflection : Type 0 where
  pub elem : ℕ → Outcome RouterError ℕ
  pub struct_of : ℕ → ℕ
  pub is_interface : ℕ → Bool
  pub implements : ℕ → ℕ → Bool
  pub assignable : ℕ → ℕ → Bool
  pub context_type : ℕ
  pub message_type : ℕ
  pub error_type : ℕ

-- `unmarshal` makes a new message of a struct type; it panics if the type is none of a message.
pub record Protobuf (M : Type 0) : Type 0 where
  pub type_of : M → ℕ
  pub full_name : M → String
  pub marshal : M → Outcome RouterError Bytes
  pub unmarshal : ℕ → Bytes → Outcome RouterError M
  pub marshal_base : BaseMessage → Outcome RouterError Bytes
  pub unmarshal_base : Bytes → Outcome RouterError BaseMessage
  pub unmarshal_base-marshal_base :
      (b : BaseMessage) (bs : Bytes) → marshal_base b ≡ ok bs → unmarshal_base bs ≡ ok b

-- What a call of a handler comes to: a panic, one result, two, or another number of them. A result
-- is of a kind that can be nil.
pub data Call (M : Type 0) : Type 0 where
  panicked : Call M
  one : Option RouterError → Call M
  two : Option M → Option RouterError → Call M
  several : ℕ → Call M

-- A handler is any value: nil, a value that is no function, or a function with its parameter and
-- result types.
pub data Handler (M : Type 0) : Type 0 where
  nil_handler no_function : Handler M
  func : List ℕ → List ℕ → (M → Call M) → Handler M

pub record Router (M : Type 0) : Type 0 where
  pub handlers : Map ℕ (Handler M)
  pub type_registry : Map String ℕ

unfoldable pub new_router : {M : Type 0} → Router M
new_router = record { handlers = []; type_registry = [] }

abbrev pub check_that : Bool → RouterError → Outcome RouterError (Unit {0})
check_that true e = ok tt
check_that false e = err e

-- `fmt.Errorf` around an error.
abbrev pub wrap :
    {A : Type 0} → (RouterError → RouterError) → Outcome RouterError A → Outcome RouterError A
wrap f (ok a) = ok a
wrap f (err e) = err (f e)
wrap f panic = panic

module _ {M : Type 0} (reflect : Reflection) (proto : Protobuf M) where
  abbrev pub struct_type : M → ℕ
  struct_type m = reflect.struct_of (proto.type_of m)

  unfoldable pub register_message_type : M → Router M → Router M
  register_message_type m r = record r {
    type_registry = insert (proto.full_name m) (struct_type m) r.type_registry;
  }

  -- The checks of the results, their number first.
  unfoldable pub validate_results : List ℕ → Outcome RouterError (Unit {0})
  validate_results (e ∷ []) =
      check_that (reflect.implements e reflect.error_type) (invalid_handler not_an_error)
  validate_results (m ∷ e ∷ []) = do
    check_that (reflect.implements m reflect.message_type) (invalid_handler not_a_message)
    check_that (reflect.implements e reflect.error_type) (invalid_handler not_an_error)
  validate_results outs = err (invalid_handler wrong_results)

  unfoldable pub validate_function : ℕ → List ℕ → List ℕ → Outcome RouterError (Unit {0})
  validate_function msg_type (c ∷ p ∷ []) outs = do
    check_that (c == reflect.context_type) (invalid_handler not_a_context)
    t ← reflect.elem p
    check_that (t == msg_type) (invalid_handler not_the_message)
    validate_results outs
  validate_function msg_type ins outs = err (invalid_handler not_two_parameters)

  -- The type of a nil handler is nil, and asking for its kind panics.
  unfoldable pub validate_handler : ℕ → Handler M → Outcome RouterError (Unit {0})
  validate_handler msg_type nil_handler = panic
  validate_handler msg_type no_function = err (invalid_handler not_a_function)
  validate_handler msg_type (func ins outs body) = validate_function msg_type ins outs

  unfoldable pub store_handler :
      ℕ
      → Handler M
      → Router M
      → Outcome RouterError (Unit {0})
      → Router M × Outcome RouterError (Unit {0})
  store_handler t h r (ok u) = (record r { handlers = insert t h r.handlers }, ok u)
  store_handler t h r (err e) = (r, err e)
  store_handler t h r panic = (r, panic)

  -- The type is registered also for a handler that is refused.
  unfoldable pub register_handler :
      M → Handler M → Router M → Router M × Outcome RouterError (Unit {0})
  register_handler m h r =
      let t = struct_type m in store_handler t h (register_message_type m r) (validate_handler t h)

  unfoldable pub has_handler : M → Router M → Bool
  has_handler m r = found (lookup (struct_type m) r.handlers)
    where
      found : Option (Handler M) → Bool
      found (some h) = true
      found none = false

  unfoldable pub get_msg_type : String → Router M → Option ℕ
  get_msg_type name r = lookup name r.type_registry

  abbrev names : Map String ℕ → List String
  names [] = []
  names ((k, t) ∷ m) = k ∷ names m

  unfoldable pub get_registered_types : Router M → List String
  get_registered_types r = names r.type_registry
