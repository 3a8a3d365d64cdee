-- ===== src/Core/Registry.antt =====
-- proto_generate.go, the template: the registry of message types in the generated package msgtype.
-- A reflect.Type is a number; two types are equal if their numbers are.
use mathlib.Core.Path.{subst}
use mine_net.Base.{
  ap, ℕ, ◌≡◌, refl, ◌∙◌, Bool, true, false, Option, none, some, List, [], ◌∷◌, Outcome, ok, panic,
  ◌>>=◌, String, leb, ◌==◌, if◌then◌else◌,
}
use mine_net.Base.Map.{Map, nat_key, lookup, insert, lookup-insert, Distinct}
use mine_net.Core.Errors.{RouterError}

pub record MessageTypeInfo : Type 0 where
  pub msg_type : ℕ
  pub request_type : Option ℕ
  pub reply_type : Option ℕ
  pub name : String

pub record MessageRegistry : Type 0 where
  pub message_types : Map ℕ ℕ
  pub message_infos : Map ℕ MessageTypeInfo

abbrev pub empty_registry : MessageRegistry
empty_registry = record { message_types = []; message_infos = [] }

-- GetMessageType of a message whose type is given, its pointer taken off; 0 if there is none.
unfoldable pub get_message_type : Option ℕ → MessageRegistry → ℕ
get_message_type none r = 0
get_message_type (some typ) r = found (lookup typ r.message_types)
  where
    found : Option ℕ → ℕ
    found (some n) = n
    found none = 0

unfoldable pub get_message_info : ℕ → MessageRegistry → Option MessageTypeInfo
get_message_info n r = lookup n r.message_infos

-- `sort.Slice` by `<`, as an insertion sort.
abbrev insert_sorted : ℕ → List ℕ → List ℕ
insert_sorted n [] = n ∷ []
insert_sorted n (k ∷ ks) = if leb n k then n ∷ k ∷ ks else k ∷ insert_sorted n ks

abbrev sorted_keys : Map ℕ MessageTypeInfo → List ℕ
sorted_keys [] = []
sorted_keys ((n, i) ∷ m) = insert_sorted n (sorted_keys m)

unfoldable pub get_all_message_types : MessageRegistry → List ℕ
get_all_message_types r = sorted_keys r.message_infos

no_type : (typ : Option ℕ) (r : MessageRegistry) → r.message_types ≡ [] → get_message_type typ r ≡ 0
unfolding get_message_type lookup
no_type none r e = refl
no_type (some t) r e = simp e

-- `strings.HasSuffix` is a parameter.
module _ (has_suffix : String → String → Bool) where
  -- A name tells requests and replies apart.
  unfoldable pub info_of : ℕ → ℕ × String → MessageTypeInfo
  info_of msg_type (typ, name) = record {
    msg_type = msg_type;
    request_type = if has_suffix name "REQ" then some typ else none;
    reply_type =
        if has_suffix name "REQ" then none else if has_suffix name "RSP" then some typ else none;
    name = name;
  }

  -- Behind the look into messageTypes; another number for the same type is a panic.
  unfoldable pub register_found :
      Option ℕ → ℕ → MessageTypeInfo → MessageRegistry → Outcome RouterError MessageRegistry
  register_found (some existing) msg_type info r = if existing == msg_type then ok r else panic
  register_found none msg_type info r =
      ok (record r { message_infos = insert msg_type info r.message_infos })

  unfoldable pub register_message :
      ℕ → ℕ × String → MessageRegistry → Outcome RouterError MessageRegistry
  register_message msg_type (typ, name) r =
      register_found (lookup typ r.message_types) msg_type (info_of msg_type (typ, name)) r

  -- `init`: one call for each message of the .proto files, here by message number.
  unfoldable pub register_all :
      Map ℕ (ℕ × String) → MessageRegistry → Outcome RouterError MessageRegistry
  register_all [] r = ok r
  register_all ((msg_type, m) ∷ ms) r = register_message msg_type m r >>= register_all ms

  unfoldable pub new_message_registry : Map ℕ (ℕ × String) → Outcome RouterError MessageRegistry
  new_message_registry ms = register_all ms empty_registry

  -- What the registry has for a number: the message's entry, or what was there before.
  abbrev pub info_or : ℕ → Option (ℕ × String) → Option MessageTypeInfo → Option MessageTypeInfo
  info_or n (some m) before = some (info_of n m)
  info_or n none before = before

  -- Over a registry without types, registering never panics, and fills in no type.
  record Registered (ms : Map ℕ (ℕ × String)) (r : MessageRegistry) : Type 0 where
    pub result : MessageRegistry
    pub made : register_all ms r ≡ ok result
    pub no_types : result.message_types ≡ []
    pub infos :
        (n : ℕ) → lookup n result.message_infos ≡ info_or n (lookup n ms) (lookup n r.message_infos)

  register_message-new :
      (n : ℕ) (m : ℕ × String) (r : MessageRegistry)
      → r.message_types ≡ []
      → register_message n m r
        ≡ ok (record r { message_infos = insert n (info_of n m) r.message_infos })
  unfolding register_message register_found lookup
  register_message-new n (typ, name) r e = simp e

  info_or-if :
      (b : Bool) (k n : ℕ) (m : ℕ × String) (o : Option (ℕ × String))
      (before : Option MessageTypeInfo)
      → (b ≡ true → k ≡ n)
      → (b ≡ true → o ≡ none)
      → info_or n o (if b then some (info_of k m) else before)
        ≡ info_or n (if b then some m else o) before
  info_or-if true k n m o before same new =
      simp (new refl) (ap (λ j. some (info_of j m)) (same refl))
  info_or-if false k n m o before same new = refl

  register_all-Registered :
      (ms : Map ℕ (ℕ × String)) (r : MessageRegistry)
      → Distinct ms
      → r.message_types ≡ []
      → Registered ms r
  unfolding register_all lookup
  register_all-Registered [] r d e = record {
    result = r;
    made = refl;
    no_types = e;
    infos = λ n. refl;
  }
  register_all-Registered ((k, m) ∷ ms) r d e =
      let next = record r { message_infos = insert k (info_of k m) r.message_infos } in
      let ih = register_all-Registered ms next d.1 e in
      record {
        result = ih.result;
        made = rw (register_message-new k m r e) ih.made;
        no_types = ih.no_types;
        infos = λ n.
            ih.infos n
            ∙ ap (info_or n (lookup n ms)) (lookup-insert k n (info_of k m) r.message_infos)
            ∙ info_or-if (nat_key.beq k n) k n m (lookup n ms) (lookup n r.message_infos)
                (nat_key.beq_iff k n).0
                (λ h. subst (λ j. lookup j ms ≡ none) ((nat_key.beq_iff k n).0 h) d.0);
      }

  -- Building the registry from messages with different numbers never panics. Each number has the
  -- entry of its message, no other number has one, and GetMessageType answers 0 for every message.
  pub new_message_registry_lem :
      (ms : Map ℕ (ℕ × String))
      → Distinct ms
      → (r : MessageRegistry) × (new_message_registry ms ≡ ok r)
        × ((n : ℕ) → get_message_info n r ≡ info_or n (lookup n ms) none)
        × ((typ : Option ℕ) → get_message_type typ r ≡ 0)
  unfolding new_message_registry get_message_info lookup
  new_message_registry_lem ms d =
      let done = register_all-Registered ms empty_registry d refl in
      (done.result, done.made, done.infos, λ typ. no_type typ done.result done.no_types)
