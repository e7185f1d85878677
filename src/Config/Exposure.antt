-- ===== src/Config/Exposure.antt =====
-- What `LoadConfigFromEnv` of pkg/adapter/config.go allows of a server without a key.
use aadapter.Base.{◌≡◌, refl, ◌⊎◌, inl, inr, Bool, true, false, not, ◌&&◌}

pub exposed :
    (no_key allow loopback : Bool)
    → not (no_key && (not allow && not loopback)) ≡ true
    → no_key ≡ true
    → (allow ≡ true) ⊎ (loopback ≡ true)
exposed true true loopback h e = inl refl
exposed true false true h e = inr refl
exposed true false false h e = absurd (cc)
exposed false allow loopback h e = absurd (cc)
