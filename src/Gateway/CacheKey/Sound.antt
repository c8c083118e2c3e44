-- ===== src/Gateway/CacheKey/Sound.antt =====
-- Requests that share a key in the cache are the same (gateway/app/cache.py, gateway/app/models.py).
use text.Mathlib.TextEquality.{Char-path}
use polygate.Prelude.{
  ℕ, ◌≡◌, refl, sym, ap, ◌∙◌, Option, none, some, [], ◌∷◌, ◌++◌, String, Text, codes, ◌==◌,
  if◌then◌else◌, arith,
}
use polygate.Prelude.Floats.{Floats}
use polygate.Gateway.Router.{Privacy, Quality, balanced, cheap}
use polygate.Gateway.CacheKey.{show_nat, privacy_text, quality_text, KeyInput, bar, key_text}
use polygate.Gateway.CacheKey.Literals.{dumps-injective, append_cancel}
use polygate.Gateway.CacheKey.Decimals.{HasNoBar, show_nat-injective, show_nat-HasNoBar}

-- What stands before the last bar, and after it.
abbrev put_before : ℕ → Text → Option (Text × Text) → Option (Text × Text)
put_before c cs (some (a, b)) = some (c ∷ a, b)
put_before c cs none = if c == b'|' then some ([], cs) else none

last_bar : Text → Option (Text × Text)
last_bar [] = none
last_bar (c ∷ cs) = put_before c cs (last_bar cs)

last_bar-none : (v : Text) → HasNoBar v → last_bar v ≡ none
unfolding last_bar
last_bar-none [] h = refl
last_bar-none (c ∷ cs) (a, b) = rw (last_bar-none cs b) (ground arith)

last_bar-bar : (s v : Text) → HasNoBar v → last_bar (bar s v) ≡ some (s, v)
unfolding last_bar
last_bar-bar [] v h = rw (last_bar-none v h) refl
last_bar-bar (c ∷ cs) v h = rw (last_bar-bar cs v h) refl

bar-injective : (s t v w : Text) → HasNoBar v → HasNoBar w → bar s v ≡ bar t w → (s ≡ t) × (v ≡ w)
bar-injective s t v w h g e =
    let f : ◌≡◌ {A = Option (Text × Text)} (some (s, v)) (some (t, w)) =
      sym (last_bar-bar s v h) ∙ (ap last_bar e ∙ last_bar-bar t w g) in
    (cc, cc)

quality-HasNoBar : (q : Quality) → HasNoBar (quality_text q)
quality-HasNoBar balanced = omega arith
quality-HasNoBar Quality.high = omega arith
quality-HasNoBar cheap = omega arith

privacy-injective :
    (p q : Privacy) (x y : Text)
    → privacy_text p ++ b'|' ∷ x ≡ privacy_text q ++ b'|' ∷ y
    → (p ≡ q) × (x ≡ y)
privacy-injective Privacy.standard Privacy.standard x y h = (refl, cc)
privacy-injective Privacy.high Privacy.high x y h = (refl, cc)
privacy-injective Privacy.standard Privacy.high x y h = absurd (ground arith)
privacy-injective Privacy.high Privacy.standard x y h = absurd (ground arith)

quality_text-injective : (p q : Quality) → quality_text p ≡ quality_text q → p ≡ q
quality_text-injective balanced balanced h = refl
quality_text-injective Quality.high Quality.high h = refl
quality_text-injective cheap cheap h = refl
quality_text-injective balanced Quality.high h = absurd (ground arith)
quality_text-injective balanced cheap h = absurd (ground arith)
quality_text-injective Quality.high balanced h = absurd (ground arith)
quality_text-injective Quality.high cheap h = absurd (ground arith)
quality_text-injective cheap balanced h = absurd (ground arith)
quality_text-injective cheap Quality.high h = absurd (ground arith)

-- A text of `codes` gives the text back.
pub codes-injective : (s t : String) → codes s ≡ codes t → s ≡ t
codes-injective String.[] String.[] h = refl
codes-injective String.[] (String.◌∷◌ d t) h = cc
codes-injective (String.◌∷◌ c s) String.[] h = cc
codes-injective (String.◌∷◌ c s) (String.◌∷◌ d t) h =
    let first : c ≡ d = Char-path c d (cc) in let rest : s ≡ t = codes-injective s t (cc) in cc

module _ (fl : Floats) (show_float : fl.Float → Text)
    (show_float-HasNoBar : (x : fl.Float) → HasNoBar (show_float x))
    (show_float-injective : (x y : fl.Float) → show_float x ≡ show_float y → x ≡ y) where
  abbrev fields2 : KeyInput fl → Text
  fields2 k = bar k.scope (quality_text k.quality)

  abbrev fields3 : KeyInput fl → Text
  fields3 k = bar (fields2 k) (show_float k.max_cost_usd)

  abbrev fields4 : KeyInput fl → Text
  fields4 k = bar (fields3 k) (show_nat k.latency_target_ms)

  abbrev fields_text : KeyInput fl → Text
  fields_text k = bar (fields4 k) (show_nat k.policy_version)

  -- The text that is hashed gives back all that it is made of.
  pub key_text-injective :
      (j k : KeyInput fl) → key_text fl show_float j ≡ key_text fl show_float k → j ≡ k
  unfolding key_text
  key_text-injective j k h =
      let (messages, h1) = dumps-injective j.messages k.messages _ _ h in
      let (privacy, h2) =
        privacy-injective j.privacy k.privacy (fields_text j) (fields_text k)
          (append_cancel (b'|' ∷ []) _ _ h1) in
      let (h3, version) =
        bar-injective (fields4 j) (fields4 k) (show_nat j.policy_version)
          (show_nat k.policy_version) (show_nat-HasNoBar j.policy_version)
          (show_nat-HasNoBar k.policy_version) h2 in
      let (h4, latency) =
        bar-injective (fields3 j) (fields3 k) (show_nat j.latency_target_ms)
          (show_nat k.latency_target_ms) (show_nat-HasNoBar j.latency_target_ms)
          (show_nat-HasNoBar k.latency_target_ms) h3 in
      let (h5, cost) =
        bar-injective (fields2 j) (fields2 k) (show_float j.max_cost_usd)
          (show_float k.max_cost_usd) (show_float-HasNoBar j.max_cost_usd)
          (show_float-HasNoBar k.max_cost_usd) h4 in
      let (scope, quality) =
        bar-injective j.scope k.scope (quality_text j.quality) (quality_text k.quality)
          (quality-HasNoBar j.quality) (quality-HasNoBar k.quality) h5 in
      let messages' : j.messages ≡ k.messages = messages in
      let privacy' : j.privacy ≡ k.privacy = privacy in
      let scope' : j.scope ≡ k.scope = scope in
      let quality' : j.quality ≡ k.quality = quality_text-injective j.quality k.quality quality in
      let cost' : j.max_cost_usd ≡ k.max_cost_usd =
        show_float-injective j.max_cost_usd k.max_cost_usd cost in
      let latency' : j.latency_target_ms ≡ k.latency_target_ms =
        show_nat-injective j.latency_target_ms k.latency_target_ms latency in
      let version' : j.policy_version ≡ k.policy_version =
        show_nat-injective j.policy_version k.policy_version version in
      λ i. record {
        messages = messages' i;
        privacy = privacy' i;
        scope = scope' i;
        quality = quality' i;
        max_cost_usd = cost' i;
        latency_target_ms = latency' i;
        policy_version = version' i;
      }
