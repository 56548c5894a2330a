-- ===== src/Connection.antt =====
-- network/net/Connection.cc and Connection.h: the addresses of a connection, the contexts that users
-- keep with it, and its activation (GetContext does not compile and has no model). A `shared_ptr<void>` is an optional value of a type `C`; the
-- functions in the loop's queue are numbers, and those of `Active` stand at the number `fn`.
pub mod Activation
mod Tests
use wl_tmm.Prelude.{ℕ, Option, none, List, [], Bool, true, false, suc, if◌then◌else◌, ◌==◌}
use wl_tmm.Prelude.Int.{ℤ}
use wl_tmm.Prelude.Maps.{int_eq, insert}
use wl_tmm.InetAddress.{InetAddress}
use wl_tmm.EventLoop.{EventLoop, Event}
use wl_tmm.EventLoop.Queue.{run_in_loop}

-- `called` counts the calls of the callback, which is set or not.
pub record Connection {ℓ} (C : Type ℓ) : Type ℓ where
  pub local_addr : InetAddress
  pub peer_addr : InetAddress
  pub contexts : List (ℤ × Option C)
  pub has_active_cb : Bool
  pub active : Bool
  pub called : ℕ

module _ {ℓ} {C : Type ℓ} where
  unfoldable pub new_connection : InetAddress → InetAddress → Connection C
  new_connection local_addr peer_addr = record {
    local_addr = local_addr;
    peer_addr = peer_addr;
    contexts = [];
    has_active_cb = false;
    active = false;
    called = 0;
  }

  unfoldable pub set_local_addr : InetAddress → Connection C → Connection C
  set_local_addr a c = record c { local_addr = a }

  unfoldable pub set_peer_addr : InetAddress → Connection C → Connection C
  set_peer_addr a c = record c { peer_addr = a }

  unfoldable pub set_context : ℤ → Option C → Connection C → Connection C
  set_context type context c = record c { contexts = insert type context c.contexts }

  -- `ClearContext(type)`: `contexts_[type]` makes an entry when there is none, and `reset` empties it.
  unfoldable pub clear_context : ℤ → Connection C → Connection C
  clear_context type c = record c { contexts = insert type none c.contexts }

  unfoldable pub clear_contexts : Connection C → Connection C
  clear_contexts c = record c { contexts = [] }

  unfoldable pub set_active_callback : Bool → Connection C → Connection C
  set_active_callback set c = record c { has_active_cb = set }

  unfoldable pub deactive : Connection C → Connection C
  deactive c = record c { active = false }

  -- The function that `Active` hands to the loop.
  unfoldable pub activate : Connection C → Connection C
  activate c = record c {
    active = true;
    called = if c.has_active_cb then suc c.called else c.called;
  }

  -- What the functions of the queue do to this connection: those of others leave it alone.
  unfoldable pub run_active : (fn : ℕ) → ℕ → Connection C → Connection C
  run_active fn f c = if f == fn then activate c else c

  -- `Active`: the flag is read on the caller's thread.
  unfoldable pub activate_in_loop :
      (fn : ℕ) → Bool → Event → EventLoop × Connection C → EventLoop × Connection C
  activate_in_loop fn in_loop_thread made (l, c) =
      if c.active then (l, c) else run_in_loop (run_active fn) in_loop_thread made fn (l, c)
