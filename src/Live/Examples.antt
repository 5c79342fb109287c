-- ===== src/Live/Examples.antt =====
-- The theorems of this component at a concrete run, with a reconnection.
use llmplane.Common.{
  ◌≡◌, refl, true, false, List, [], ◌∷◌, text, text_methods, lookup, if◌then◌else◌,
}
use llmplane.Live.Socket.{
  Provider, initial, Event, mount, unmount, on_open, on_close, timer_fires, subscribe, unsubscribe,
  opened, connecting, run, on_message,
}
use llmplane.Live.Refinement.{count, wanted, run_refines}
use llmplane.Live.SocketLaws.{is_given, hub, run-served, unmount-reconnects}

abbrev reconnecting : List Event
reconnecting =
    mount
    ∷ subscribe (text "logs") 1
    ∷ on_open
    ∷ subscribe (text "jobs") 2
    ∷ on_close
    ∷ timer_fires
    ∷ unsubscribe (text "logs") 1
    ∷ on_open
    ∷ []

run-served_example :
    hub (text "jobs") initial false reconnecting
    ≡ is_given (lookup (text "jobs") (run initial reconnecting).0.subscriptions)
unfolding run initial text_methods
run-served_example = run-served (text "jobs") reconnecting refl

run_refines_example :
    count 2 (on_message (text "jobs") (run initial reconnecting).0)
    ≡ (if wanted (text "jobs") 2 reconnecting false then 1 else 0)
run_refines_example = run_refines (text "jobs") 2 reconnecting

abbrev connected : Provider
connected = record {
  subscriptions = [];
  socket = opened;
  is_connected = true;
  timer = false;
  mounted = true;
}

unmount-reconnects_example :
    let after = (run connected (unmount ∷ on_close ∷ timer_fires ∷ [])).0 in
    (after.mounted ≡ false) × (after.socket ≡ connecting)
unmount-reconnects_example = unmount-reconnects connected refl
