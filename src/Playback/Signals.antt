-- ===== src/Playback/Signals.antt =====
-- How many packets and requests a list of signals of src/channel-playback.c has.
use spice_gtk.Base.{ℕ, suc, ◌+◌, ◌≡◌, List, [], ◌∷◌, ◌++◌, arith}
use spice_gtk.Playback.{
  Signal, playback_data, playback_get_delay, playback_start, playback_stop, warning, notify_volume,
  notify_mute, notify_min_latency, set_mm_time,
}

abbrev pub played : List Signal → ℕ
played [] = 0
played (playback_data bytes ∷ ss) = suc (played ss)
played (_ ∷ ss) = played ss

abbrev pub delays : List Signal → ℕ
delays [] = 0
delays (playback_get_delay ∷ ss) = suc (delays ss)
delays (_ ∷ ss) = delays ss

pub played-append : (ss ts : List Signal) → played (ss ++ ts) ≡ played ss + played ts
played-append [] ts = omega arith
played-append (playback_data b ∷ ss) ts = omega (arith, played-append ss ts)
played-append (playback_get_delay ∷ ss) ts = played-append ss ts
played-append (playback_start f c q ∷ ss) ts = played-append ss ts
played-append (playback_stop ∷ ss) ts = played-append ss ts
played-append (notify_volume ∷ ss) ts = played-append ss ts
played-append (notify_mute ∷ ss) ts = played-append ss ts
played-append (notify_min_latency ∷ ss) ts = played-append ss ts
played-append (set_mm_time t ∷ ss) ts = played-append ss ts
played-append (warning ∷ ss) ts = played-append ss ts

pub delays-append : (ss ts : List Signal) → delays (ss ++ ts) ≡ delays ss + delays ts
delays-append [] ts = omega arith
delays-append (playback_data b ∷ ss) ts = delays-append ss ts
delays-append (playback_get_delay ∷ ss) ts = omega (arith, delays-append ss ts)
delays-append (playback_start f c q ∷ ss) ts = delays-append ss ts
delays-append (playback_stop ∷ ss) ts = delays-append ss ts
delays-append (notify_volume ∷ ss) ts = delays-append ss ts
delays-append (notify_mute ∷ ss) ts = delays-append ss ts
delays-append (notify_min_latency ∷ ss) ts = delays-append ss ts
delays-append (set_mm_time t ∷ ss) ts = delays-append ss ts
delays-append (warning ∷ ss) ts = delays-append ss ts
