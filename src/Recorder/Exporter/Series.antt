-- ===== src/Recorder/Exporter/Series.antt =====
-- io-bilive-recorder/metrics.go: the series that the exporter shows. A gauge shows a series once it
-- was set with its labels, until it is deleted: what the Prometheus library documents.
pub mod Maps
pub mod Live
pub mod Sweep
mod Values
mod Shown
mod Offline
pub mod Updates
mod Tests
use focot_services.Prelude.{
  is_yes, contains, Text, ◌≡◌, refl, Bool, not, ◌&&◌, ◌||◌, List, [], ◌∷◌, ◌++◌, map, arith,
  ℕ_discrete,
}
use focot_services.Prelude.Int.{ℤ}
use focot_services.Recorder.Exporter.{Gauge, texts_dec, Call, observe, set, delete_values}

unfoldable pub gauge_dec : Discrete Gauge
gauge_dec = hlevel ℕ_discrete

module _ (Float : Type 0) (of_int : ℤ → Float) where
  abbrev pub is_series : Gauge → List Text → Gauge → List Text → Bool
  is_series g vs h ws = is_yes (gauge_dec h g) && is_yes (texts_dec ws vs)

  -- Whether a gauge shows the series of some labels after further calls.
  abbrev pub live_after : Bool → Gauge → List Text → List (Call Float of_int) → Bool
  live_after b g vs [] = b
  live_after b g vs (observe _ _ ∷ cs) = live_after b g vs cs
  live_after b g vs (set h ws _ ∷ cs) = live_after (b || is_series g vs h ws) g vs cs
  live_after b g vs (delete_values h ws ∷ cs) = live_after (b && not (is_series g vs h ws)) g vs cs

  pub live_after-append :
      (b : Bool) (g : Gauge) (vs : List Text) (cs ds : List (Call Float of_int))
      → live_after b g vs (cs ++ ds) ≡ live_after (live_after b g vs cs) g vs ds
  live_after-append b g vs [] ds = refl
  live_after-append b g vs (observe _ _ ∷ cs) ds = live_after-append b g vs cs ds
  live_after-append b g vs (set h ws _ ∷ cs) ds =
      live_after-append (b || is_series g vs h ws) g vs cs ds
  live_after-append b g vs (delete_values h ws ∷ cs) ds =
      live_after-append (b && not (is_series g vs h ws)) g vs cs ds

  pub live_after-set :
      (b : Bool) (g : Gauge) (vs ws : List Text) (value : Gauge → Float) (gs : List Gauge)
      → live_after b g vs (map (λ h. set h ws (value h)) gs)
        ≡ (b || (contains gauge_dec gs g && is_yes (texts_dec ws vs)))
  live_after-set b g vs ws value [] = ground arith
  live_after-set b g vs ws value (h ∷ gs) =
      ground (arith, live_after-set (b || is_series g vs h ws) g vs ws value gs)

  pub live_after-delete :
      (b : Bool) (g : Gauge) (vs ws : List Text) (gs : List Gauge)
      → live_after b g vs (map (λ h. delete_values h ws) gs)
        ≡ (b && not (contains gauge_dec gs g && is_yes (texts_dec ws vs)))
  live_after-delete b g vs ws [] = ground arith
  live_after-delete b g vs ws (h ∷ gs) =
      ground (arith, live_after-delete (b && not (is_series g vs h ws)) g vs ws gs)
