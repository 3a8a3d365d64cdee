-- ===== src/Core/Errors.antt =====
-- The errors of core/router.go, and those that it passes on.
use mine_net.Base.{ℕ}
use mine_net.Network.Errors.{Error}

-- Why validateHandler refuses a handler.
pub data Invalid : Type 0 where
  not_a_function not_two_parameters not_a_context not_the_message : Invalid
  wrong_results not_a_message not_an_error : Invalid

pub data RouterError : Type 0 where
  proto : ℕ → RouterError
  invalid_handler : Invalid → RouterError
  bad_base bad_message : RouterError → RouterError
  no_handler handler_nil wrong_arity context_mismatch message_mismatch : RouterError
  execution_failed handler_panic conn_nil : RouterError
  wrong_outputs : ℕ → RouterError
  handler_error : ℕ → RouterError
  bad_response bad_response_base no_response : RouterError → RouterError
  send_failed : Error → RouterError
