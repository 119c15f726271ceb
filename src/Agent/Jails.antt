-- ===== src/Agent/Jails.antt =====
-- connection/local_agent_handler.rs: the jails of the local agent as reasons to wait.
use protun.Base.{List, map}
use protun.Api.LocalAgent.{WaitJailReason}
use protun.Client.Agent.{Jail, HandledJail, ToHandleJail}

handled_reason : HandledJail → WaitJailReason
handled_reason (HandledJail.system_error m) = WaitJailReason.internal m
handled_reason (HandledJail.expired_certificate m) = WaitJailReason.internal m
handled_reason (HandledJail.revoked_certificate m) = WaitJailReason.internal m
handled_reason (HandledJail.key_already_used m) = WaitJailReason.internal m
handled_reason (HandledJail.invalid_certificate_signature m) = WaitJailReason.internal m

to_handle_reason : ToHandleJail → WaitJailReason
to_handle_reason (ToHandleJail.require_recent_2fa m) = WaitJailReason.need_2fa m
to_handle_reason (ToHandleJail.expired_2fa m) = WaitJailReason.need_2fa m
to_handle_reason (ToHandleJail.require_2fa m) = WaitJailReason.need_2fa m
to_handle_reason (ToHandleJail.waiting_client_challenge_reply m) =
    WaitJailReason.waiting_client_challenge_reply m
to_handle_reason (ToHandleJail.policy_violation_1 m) = WaitJailReason.low_plan m
to_handle_reason (ToHandleJail.policy_violation_2 m) = WaitJailReason.pending_invoice m
to_handle_reason (ToHandleJail.bad_user_behavior m) = WaitJailReason.bad_user_behavior m
to_handle_reason (ToHandleJail.disabled_user m) = WaitJailReason.disabled_user m
to_handle_reason (ToHandleJail.session_over_limit m) = WaitJailReason.session_over_limit m
to_handle_reason (ToHandleJail.free_session_over_limit m) = WaitJailReason.session_over_limit m
to_handle_reason (ToHandleJail.basic_session_over_limit m) = WaitJailReason.session_over_limit m
to_handle_reason (ToHandleJail.plus_session_over_limit m) = WaitJailReason.session_over_limit m
to_handle_reason (ToHandleJail.visionary_session_over_limit m) = WaitJailReason.session_over_limit m
to_handle_reason (ToHandleJail.pro_session_over_limit m) = WaitJailReason.session_over_limit m
to_handle_reason (ToHandleJail.guest_session m) = WaitJailReason.internal m
to_handle_reason (ToHandleJail.restricted_server m) = WaitJailReason.internal m
to_handle_reason (ToHandleJail.no_certificate_provided m) = WaitJailReason.internal m
to_handle_reason (ToHandleJail.session_installation_in_progress m) = WaitJailReason.internal m
to_handle_reason (ToHandleJail.unknown code m) = WaitJailReason.other code m

pub wait_jail_reason : Jail → WaitJailReason
unfolding handled_reason to_handle_reason
wait_jail_reason (Jail.internally_handled j) = handled_reason j
wait_jail_reason (Jail.to_handle j) = to_handle_reason j

unfoldable pub wait_jail_reasons : List Jail → List WaitJailReason
unfolding wait_jail_reason
wait_jail_reasons = map wait_jail_reason
