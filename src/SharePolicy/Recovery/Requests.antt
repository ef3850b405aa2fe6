-- ===== src/SharePolicy/Recovery/Requests.antt =====
-- Keyframe requests of the recovery policy.
use tsod.Prelude.{
  ℕ, ◌-◌, ◌≤◌, ◌≡◌, ◌⊎◌, true, false, ◌&&◌, Option, none, some, List, [], ◌∷◌, if◌then◌else◌, ◌==◌,
}
use tsod.Prelude.Maps.{lookup, nat_key}
use tsod.SharePolicy.{has_passed}
use tsod.SharePolicy.Recovery.{
  ViewerRecoveryPolicy, RecoveryPolicyConfig, RecoveryTickActions, StreamRecoveryState,
  register_stream, on_frame_received, evaluate_stream,
}

-- What happens to a policy, each with its stream and time.
pub data Event : Type 0 where
  registered frame evaluated : ℕ → ℕ → Event

-- The times at which a keyframe of the stream is requested.
unfoldable pub keyframe_requests : ℕ → ViewerRecoveryPolicy → List Event → List ℕ
unfolding register_stream on_frame_received evaluate_stream
keyframe_requests tag p [] = []
keyframe_requests tag p (registered u now ∷ events) =
    keyframe_requests tag (register_stream p u now) events
keyframe_requests tag p (frame u now ∷ events) =
    keyframe_requests tag (on_frame_received p u now) events
keyframe_requests tag p (evaluated u now ∷ events) =
    let r = evaluate_stream p u now in
    let rest = keyframe_requests tag r.1 events in
    if u == tag && r.0.request_keyframe then now ∷ rest else rest

-- The first lies at least the cooldown after `last`, if that is there, and each later one after the one
-- before; where the clock has stepped back no time has passed.
abbrev pub Spaced : ℕ → Option ℕ → List ℕ → Type 0
Spaced cooldown last [] = Unit {0}
Spaced cooldown none (t ∷ ts) = Spaced cooldown (some t) ts
Spaced cooldown (some last) (t ∷ ts) = (cooldown ≤ t - last) × Spaced cooldown (some t) ts

abbrev last_of : Option StreamRecoveryState → Option ℕ
last_of none = none
last_of (some s) = s.last_keyframe_request_at

abbrev last_request : ℕ → ViewerRecoveryPolicy → Option ℕ
last_request tag p = last_of (lookup tag p.streams)

-- A tick that asks for a keyframe comes after the cooldown and is remembered; another is not.
abbrev Ticked :
    RecoveryPolicyConfig
    → StreamRecoveryState
    → ℕ
    → RecoveryTickActions × StreamRecoveryState
    → Type 0
Ticked cfg s now r =
    ((r.0.request_keyframe ≡ true)
      × (has_passed s.last_keyframe_request_at cfg.keyframe_cooldown now ≡ true)
      × (r.1.last_keyframe_request_at ≡ some now))
    ⊎ ((r.0.request_keyframe ≡ false) × (r.1.last_keyframe_request_at ≡ s.last_keyframe_request_at))
