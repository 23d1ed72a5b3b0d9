-- ===== src/Trace/CrashSite.antt =====
-- rca_agent/stack_trace.py: the crash site behind `_dedupe`.
use rca_claude_agent.Trace.Frames.{
  has_place, dedupe_frames, dedupe_loop, same_place, crash_site, Frame,
}
use rca_claude_agent.Prelude.{
  ◌||◌, refl, if◌then◌else◌, some, eq_iff, [], true, arith, ◌∷◌, ◌≡◌, ◌++◌, List,
}

crash_site_end : (fs : List Frame) (f : Frame) → crash_site (fs ++ f ∷ []) ≡ some f
unfolding crash_site
crash_site_end [] f = refl
crash_site_end (g ∷ []) f = refl
crash_site_end (g ∷ (h ∷ hs)) f = crash_site_end (h ∷ hs) f

same_place_sym : (f g : Frame) → same_place f g ≡ same_place g f
same_place_sym f g = ground (arith, eq_iff f.path g.path, eq_iff g.path f.path)

same_place_trans : (f g h : Frame) → same_place f g ≡ true → same_place g h ≡ same_place f h
same_place_trans f g h e =
    ground (arith, eq_iff f.path g.path, eq_iff g.path h.path, eq_iff f.path h.path)

has_place_trans :
    (f g : Frame) (seen : List Frame) → same_place f g ≡ true → has_place g seen ≡ has_place f seen
has_place_trans f g [] e = refl
has_place_trans f g (h ∷ seen) e =
    ground (arith, same_place_trans f g h e, has_place_trans f g seen e)

dedupe_loop_end :
    (seen fs : List Frame) (f : Frame)
    → dedupe_loop seen (fs ++ f ∷ []) ≡ (
        if has_place f seen || has_place f fs
        then dedupe_loop seen fs
        else dedupe_loop seen fs ++ f ∷ [])
unfolding dedupe_loop
dedupe_loop_end seen [] f = ground arith
dedupe_loop_end seen (g ∷ fs) f =
    ground
      (arith, dedupe_loop_end seen fs f, dedupe_loop_end (g ∷ seen) fs f, has_place_trans f g seen)

-- The crash site is the innermost frame exactly if no frame further out is at the same place; if
-- one is, as in a recursion, the innermost frame is dropped as the copy, and the crash site is that
-- of the frames around it.
pub crash_site-dedupe_frames :
    (outer : List Frame) (innermost : Frame)
    → crash_site (dedupe_frames (outer ++ innermost ∷ []))
      ≡ (if has_place innermost outer then crash_site (dedupe_frames outer) else some innermost)
unfolding dedupe_frames
crash_site-dedupe_frames outer innermost =
    ground
      (arith, dedupe_loop_end [] outer innermost, crash_site_end (dedupe_loop [] outer) innermost)
