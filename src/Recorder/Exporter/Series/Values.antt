-- ===== src/Recorder/Exporter/Series/Values.antt =====
-- io-bilive-recorder/metrics.go: the values that the gauges show. A gauge shows the value that it
-- was last set to, until it is deleted.
use focot_services.Prelude.{
  if◌then◌else◌, is_yes, contains, Text, ◌≡◌, refl, ◌∙◌, true, false, ◌&&◌, ◌||◌, Option, none,
  some, List, [], ◌∷◌, ◌++◌, map, arith,
}
use focot_services.Prelude.Int.{ℤ}
use focot_services.Recorder.Exporter.{
  Gauge, collector, texts_dec, room_series, Call, observe, set, delete_values, Exporter, info_calls,
  values_of,
}
use focot_services.Recorder.Exporter.Series.{gauge_dec, is_series}
use focot_services.Recorder.Exporter.Series.Live.{managed}

module _ (Float : Type 0) (of_int : ℤ → Float) where
  -- What a gauge shows for some labels after further calls.
  abbrev pub value_after :
      Option Float → Gauge → List Text → List (Call Float of_int) → Option Float
  value_after o g vs [] = o
  value_after o g vs (observe _ _ ∷ cs) = value_after o g vs cs
  value_after o g vs (set h ws v ∷ cs) =
      value_after (if is_series Float of_int g vs h ws then some v else o) g vs cs
  value_after o g vs (delete_values h ws ∷ cs) =
      value_after (if is_series Float of_int g vs h ws then none else o) g vs cs

  pub value_after-append :
      (o : Option Float) (g : Gauge) (vs : List Text) (cs ds : List (Call Float of_int))
      → value_after o g vs (cs ++ ds) ≡ value_after (value_after o g vs cs) g vs ds
  value_after-append o g vs [] ds = refl
  value_after-append o g vs (observe _ _ ∷ cs) ds = value_after-append o g vs cs ds
  value_after-append o g vs (set h ws v ∷ cs) ds =
      value_after-append (if is_series Float of_int g vs h ws then some v else o) g vs cs ds
  value_after-append o g vs (delete_values h ws ∷ cs) ds =
      value_after-append (if is_series Float of_int g vs h ws then none else o) g vs cs ds

  pub value_after-set :
      (o : Option Float) (g : Gauge) (vs ws : List Text) (value : Gauge → Float) (gs : List Gauge)
      → value_after o g vs (map (λ h. set h ws (value h)) gs)
        ≡ (if contains gauge_dec gs g && is_yes (texts_dec ws vs) then some (value g) else o)
  value_after-set o g vs ws value [] = refl
  value_after-set o g vs ws value (h ∷ gs) =
      value_after-set (if is_series Float of_int g vs h ws then some (value h) else o) g vs ws value
        gs
      ∙ elim (gauge_dec h g)
          as (λ d.
            (if contains gauge_dec gs g && is_yes (texts_dec ws vs)
              then some (value g)
              else if is_yes d && is_yes (texts_dec ws vs)
              then some (value h)
              else o)
            ≡ (if (is_yes d || contains gauge_dec gs g) && is_yes (texts_dec ws vs)
                then some (value g)
                else o)) [ yes e ↦ rw e (ground arith) | no _ ↦ refl ]

  -- Calls for other labels, or for the room info, change nothing.
  pub value_after-delete :
      (o : Option Float) (g : Gauge) (vs ws : List Text) (gs : List Gauge)
      → is_yes (texts_dec ws vs) ≡ false
      → value_after o g vs (map (λ h. delete_values h ws) gs) ≡ o
  value_after-delete o g vs ws [] other = refl
  value_after-delete o g vs ws (h ∷ gs) other =
      ground (arith, value_after-delete o g vs ws gs other)

  pub info_calls-value :
      (o : Option Float) (g : Gauge) (vs values : List Text) (old : Option (List Text))
      → contains gauge_dec collector g ≡ true
      → value_after o g vs (info_calls Float of_int values old) ≡ o
  unfolding info_calls
  info_calls-value o g vs values none h = ground (arith, managed g h)
  info_calls-value o g vs values (some old) h = ground (arith, managed g h)

  pub values_of-value :
      (o : Option Float) (g : Gauge) (vs : List Text) (labels : List (ℤ × List Text))
      → contains gauge_dec collector g ≡ true
      → value_after o g vs (values_of Float of_int labels) ≡ o
  values_of-value o g vs [] h = refl
  values_of-value o g vs ((_, old) ∷ labels) h =
      ground (arith, managed g h, values_of-value o g vs labels h)

  -- What a gauge shows for a room.
  unfoldable pub shown : Gauge → Text → ℤ → Exporter Float of_int → Option Float
  shown g n r e = value_after none g (room_series n r) e.calls
