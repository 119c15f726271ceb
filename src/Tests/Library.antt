-- ===== src/Tests/Library.antt =====
-- A small library behind PvpnClientImpl, on which the theorem about its actions is tried.
use protun.Base.{ℕ, suc, List, [], ◌∷◌, Option, none, some, Bool, true, false, ◌≡◌, refl}
use protun.Client.Tunnel.{ActionKind, TunnelInfo, TunnelStats}
use protun.Client.Interface.{Action}
use protun.Adapter.{
  Task, RawClient, PvpnReturn, PvpnClientImpl, is_need_pull, new, handle_result, push, pull,
}
use protun.Adapter.Pending.{TellsPending, created, push_step, pull_step, reached_need_pull}
use protun.Tests.{ids}

-- The actions that wait.
abbrev Queue : Type 0
Queue = List (Action ids)

abbrev task : Queue → Task
task [] = Task.no_task
task (a ∷ q) = Task.need_pull

abbrev has_action : Queue → Bool
has_action [] = false
has_action (a ∷ q) = true

abbrev returned : {A : Type 0} → Queue → A → Queue × PvpnReturn A
returned q a = (q, record { value = a; task = task q; wakeup_deadline = none })

abbrev pull_first : Queue → Queue × PvpnReturn (Option (Action ids))
pull_first [] = returned [] none
pull_first (a ∷ q) = returned q (some a)

-- A push gives two actions to be pulled.
abbrev library : RawClient ids
library = record {
  Raw = Queue;
  Monotonic = ℕ;
  Realtime = ℕ;
  monotonic_now = λ n. (suc n, n);
  realtime_now = λ n. (suc n, n);
  set_time = λ q _ _. returned q tt;
  add_peer = λ q _. returned q tt;
  remove_peer = λ q _. returned q tt;
  pull = pull_first;
  pull_local_agent = λ q. (q, none);
  push_local_agent = λ q _. returned q tt;
  push = λ q a. returned (a ∷ a ∷ q) tt;
  notify_network_change = λ q. returned q tt;
  tunnel_info = λ q. returned q none;
  tunnel_stats = λ q. returned q none;
  set_settings = λ q _. returned q tt;
  capture_packet = λ q. returned q tt;
  stop_capture_packet = λ q. returned q tt;
}

returned_lem : {A : Type 0} (q : Queue) (a : A) → is_need_pull (returned q a).1.task ≡ has_action q
returned_lem [] a = refl
returned_lem (x ∷ q) a = refl

pull_first_lem : (q : Queue) → is_need_pull (pull_first q).1.task ≡ has_action (pull_first q).0
pull_first_lem [] = refl
pull_first_lem (a ∷ q) = returned_lem q (some a)

abbrev library_tells : TellsPending ids library
library_tells = record {
  has_action = has_action;
  set_time_lem = λ q _ _. returned_lem q tt;
  add_peer_lem = λ q _. returned_lem q tt;
  remove_peer_lem = λ q _. returned_lem q tt;
  pull_lem = pull_first_lem;
  pull_local_agent_lem = λ q. refl;
  push_local_agent_lem = λ q _. returned_lem q tt;
  push_lem = λ q a. returned_lem (a ∷ a ∷ q) tt;
  notify_network_change_lem = λ q. returned_lem q tt;
  tunnel_info_lem = λ q. returned_lem {A = Option TunnelInfo} q none;
  tunnel_stats_lem = λ q. returned_lem {A = Option TunnelStats} q none;
  set_settings_lem = λ q _. returned_lem q tt;
  capture_packet_lem = λ q. returned_lem q tt;
  stop_capture_packet_lem = λ q. returned_lem q tt;
}

abbrev fresh : PvpnClientImpl ids library
fresh = new ids library [] 0 0

abbrev pushed : PvpnClientImpl ids library
pushed = push ids library fresh (1, ActionKind.close)

-- One of the two actions of the push is pulled.
abbrev pulled : PvpnClientImpl ids library
pulled = (pull ids library pushed).0

pulled_has_action : has_action pulled.c ≡ true
unfolding new push pull handle_result
pulled_has_action = refl

reached_need_pull_example : pulled.need_pull ≡ true
reached_need_pull_example =
    reached_need_pull ids library library_tells pulled
      (pull_step pushed (push_step fresh (1, ActionKind.close) (created [] 0 0))) pulled_has_action
