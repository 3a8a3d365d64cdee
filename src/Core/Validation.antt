-- ===== src/Core/Validation.antt =====
-- core/router.go, RegisterHandler: which handlers are taken, and what becomes of the others.
use mine_net.Base.{
  ap, sym, ◌∙◌, ◌>>◌, ◌>>=◌, ℕ, ◌≡◌, ◌↔◌, refl, Bool, true, false, some, List, [], ◌∷◌, Outcome, ok,
  err, panic, ◌==◌, ==_iff, arith, if◌then◌else◌,
}
use mine_net.Base.Map.{nat_key, string_key, lookup, lookup-insert, lookup-insert_self}
use mine_net.Core.Errors.{RouterError, invalid_handler, not_the_message}
use mine_net.Core.Router.{
  Reflection, Protobuf, Handler, nil_handler, no_function, func, Router, check_that, struct_type,
  validate_results, validate_function, validate_handler, store_handler, register_handler,
  register_message_type, get_msg_type,
}

module _ (reflect : Reflection) where
  -- An error, or a message and an error.
  abbrev pub AreResults : List ℕ → Type 0
  AreResults (e ∷ []) = reflect.implements e reflect.error_type ≡ true
  AreResults (m ∷ e ∷ []) =
      (reflect.implements m reflect.message_type ≡ true)
      × (reflect.implements e reflect.error_type ≡ true)
  AreResults outs = ⊥

  abbrev pub AreParameters : ℕ → List ℕ → Type 0
  AreParameters t (c ∷ p ∷ []) = (c ≡ reflect.context_type) × (reflect.elem p ≡ ok t)
  AreParameters t ins = ⊥

  -- A function of a context and of what points to the message, with fitting results.
  abbrev pub IsHandler : {M : Type 0} → ℕ → Handler M → Type 0
  IsHandler t (func ins outs body) = AreParameters t ins × AreResults outs
  IsHandler t nil_handler = ⊥
  IsHandler t no_function = ⊥

check_that_iff : (b : Bool) (e : RouterError) → (check_that b e ≡ ok tt) ↔ (b ≡ true)
check_that_iff true e = (λ h. refl, λ h. refl)
check_that_iff false e = (λ h. cc, λ h. cc)

check_that-then :
    (b : Bool) (e : RouterError) (next : Outcome RouterError (Unit {0}))
    → ((check_that b e >> next) ≡ ok tt) ↔ ((b ≡ true) × (next ≡ ok tt))
check_that-then true e next = (λ h. (refl, h), λ h. h.1)
check_that-then false e next = (λ h. cc, λ h. cc)

module _ {M : Type 0} (reflect : Reflection) (proto : Protobuf M) where
  validate_results-AreResults :
      (outs : List ℕ) → (validate_results reflect proto outs ≡ ok tt) ↔ AreResults reflect outs
  unfolding validate_results
  validate_results-AreResults [] = ground arith
  validate_results-AreResults (e ∷ []) = check_that_iff (reflect.implements e reflect.error_type) _
  validate_results-AreResults (m ∷ e ∷ []) =
      let first = check_that-then (reflect.implements m reflect.message_type) _ _ in
      let second = check_that_iff (reflect.implements e reflect.error_type) _ in
      (λ h. ((first.0 h).0, second.0 (first.0 h).1), λ h. first.1 (h.0, second.1 h.1))
  validate_results-AreResults (m ∷ e ∷ x ∷ outs) = ground arith

  -- The checks behind the element type of the second parameter.
  after_elem : ℕ → List ℕ → Outcome RouterError ℕ → Outcome RouterError (Unit {0})
  after_elem t outs o = o >>= λ u.
      check_that (u == t) (invalid_handler not_the_message) >> validate_results reflect proto outs

  after_elem-ok :
      (t : ℕ) (outs : List ℕ) (o : Outcome RouterError ℕ)
      → (after_elem t outs o ≡ ok tt) ↔ ((o ≡ ok t) × AreResults reflect outs)
  unfolding after_elem
  after_elem-ok t outs panic = (λ h. cc, λ h. cc)
  after_elem-ok t outs (err e) = (λ h. cc, λ h. cc)
  after_elem-ok t outs (ok u) =
      let same = check_that-then (u == t) _ _ in
      let results = validate_results-AreResults outs in
      (
        λ h. (ap ok ((==_iff u t).0 (same.0 h).0), results.0 (same.0 h).1),
        λ h. same.1 ((==_iff u t).1 cc, results.1 h.1),
      )

  validate_function-ok :
      (t : ℕ) (ins outs : List ℕ)
      → (validate_function reflect proto t ins outs ≡ ok tt)
        ↔ (AreParameters reflect t ins × AreResults reflect outs)
  unfolding validate_function after_elem
  validate_function-ok t [] outs = ground arith
  validate_function-ok t (c ∷ []) outs = ground arith
  validate_function-ok t (c ∷ p ∷ []) outs =
      let context = check_that-then (c == reflect.context_type) _ _ in
      let rest = after_elem-ok t outs (reflect.elem p) in
      (
        λ h. (
          ((==_iff c reflect.context_type).0 (context.0 h).0, (rest.0 (context.0 h).1).0),
          (rest.0 (context.0 h).1).1,
        ),
        λ h. context.1 ((==_iff c reflect.context_type).1 h.0.0, rest.1 (h.0.1, h.1)),
      )
  validate_function-ok t (c ∷ p ∷ x ∷ ins) outs = ground arith

  validate_handler-IsHandler :
      (t : ℕ) (h : Handler M) → (validate_handler reflect proto t h ≡ ok tt) ↔ IsHandler reflect t h
  unfolding validate_handler
  validate_handler-IsHandler t nil_handler = ground arith
  validate_handler-IsHandler t no_function = ground arith
  validate_handler-IsHandler t (func ins outs body) = validate_function-ok t ins outs

  -- What RegisterHandler leaves: the handler under its type, or the handlers as they were.
  abbrev pub Stored : ℕ → Handler M → Router M → Router M × Outcome RouterError (Unit {0}) → Type 0
  Stored t h r (r', ok u) =
      (k : ℕ) → lookup k r'.handlers ≡ (if nat_key.beq t k then some h else lookup k r.handlers)
  Stored t h r (r', err e) = r'.handlers ≡ r.handlers
  Stored t h r (r', panic) = r'.handlers ≡ r.handlers

  store_handler-Stored :
      (t : ℕ) (h : Handler M) (r : Router M) (o : Outcome RouterError (Unit {0}))
      → Stored t h r (store_handler reflect proto t h r o)
        × ((store_handler reflect proto t h r o).1 ≡ o)
        × ((store_handler reflect proto t h r o).0.type_registry ≡ r.type_registry)
  unfolding store_handler
  store_handler-Stored t h r (ok u) = (λ k. lookup-insert t k h r.handlers, refl, refl)
  store_handler-Stored t h r (err e) = (refl, refl, refl)
  store_handler-Stored t h r panic = (refl, refl, refl)

  -- RegisterHandler accepts exactly the functions of a context and of what points to the message,
  -- with an error, or a message and an error, as results. An accepted handler stands under the
  -- message's type and no other entry changes; without acceptance no entry changes. Either way the
  -- type is registered under the message's name.
  pub register_handler_lem :
      (m : M) (h : Handler M) (r : Router M)
      → let t = struct_type reflect proto m in
        let o = register_handler reflect proto m h r in
        ((o.1 ≡ ok tt) ↔ IsHandler reflect t h)
        × Stored t h r o
        × (get_msg_type reflect proto (proto.full_name m) o.0 ≡ some t)
  unfolding register_handler register_message_type get_msg_type
  register_handler_lem m h r =
      let t = struct_type reflect proto m in
      let valid = validate_handler-IsHandler t h in
      let stored =
        store_handler-Stored t h (register_message_type reflect proto m r)
          (validate_handler reflect proto t h) in
      (
        (λ e. valid.0 (sym stored.1 ∙ e), λ v. stored.1 ∙ valid.1 v),
        stored.0,
        ap (lookup (proto.full_name m)) stored.2
            ∙ lookup-insert_self (proto.full_name m) t r.type_registry,
      )
