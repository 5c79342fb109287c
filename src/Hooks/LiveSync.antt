-- ===== src/Hooks/LiveSync.antt =====
-- `useDeploymentLiveSync` of frontend/hooks/useDeployments.ts between the WebSocket provider of Live and
-- the cache. `is_sync` tells which callbacks are those of mounted uses of the hook.
use llmplane.Common.{ℕ, Bool, List, [], ◌∷◌, Text, text, if◌then◌else◌}
use llmplane.Live.Socket.{Provider, Event, subscribe, unsubscribe, on_message}
use llmplane.Hooks.Keys.{Key, str}
use llmplane.Hooks.Cache.{QueryCache}

unfoldable pub deployments_topic : Text
deployments_topic = text "deployments"

unfoldable pub deployments_key : Key
deployments_key = str (text "deployments") ∷ []

-- The effect of the hook with a callback, and its cleanup.
unfoldable pub mount_sync : ℕ → Event
unfolding deployments_topic
mount_sync c = subscribe deployments_topic c

unfoldable pub unmount_sync : ℕ → Event
unfolding deployments_topic
unmount_sync c = unsubscribe deployments_topic c

module _ {Data : Type 0} (C : QueryCache Data) (is_sync : ℕ → Bool) where
  -- The callbacks of a message, called in order: those of the hook invalidate.
  unfoldable pub call_each : List ℕ → C.State → C.State
  unfolding deployments_key
  call_each [] s = s
  call_each (c ∷ cs) s =
      let next = call_each cs (C.invalidate s deployments_key) in
      let same = call_each cs s in if is_sync c then next else same

  -- A message of the topic arrives.
  unfoldable pub receive : Provider → C.State → C.State
  unfolding call_each deployments_topic
  receive p s = call_each (on_message deployments_topic p) s
