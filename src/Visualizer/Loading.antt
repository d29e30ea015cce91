-- ===== src/Visualizer/Loading.antt =====
-- What `loadWaypoints` echoes on the monitor: lines that GPS_visualizer passes over.
use mathlib.Core.Path.{subst}
use speed_feed.Common.{
  ℕ, zero, suc, ◌+◌, ◌*◌, ◌%◌, ◌≤◌, ◌≡◌, refl, sym, ap, ◌∙◌, List, [], ◌∷◌, ◌++◌, arith, length,
  length-append, map,
}
use speed_feed.Platform.{World}
use speed_feed.Double.{Double}
use speed_feed.Waypoint.{Waypoint, new_waypoint}
use speed_feed.Monitor.{joined}
use speed_feed.Monitor.Lines.{corner_texts}
use speed_feed.Eeprom.{
  Bus, marker, echo_gate, echo_marker, load_gate, load_each, load_waypoints, read_anything,
}
use speed_feed.Eeprom.Cells.{IsEeprom, capacity, read_anything-Holds}
use speed_feed.Eeprom.Gates.{IsLayout, HoldsGates, HoldsGates-SameCells, load_gate-Holds}
use speed_feed.Eeprom.RoundTrip.{HoldsTrack, ends, at_index-length}
use speed_feed.Visualizer.{Java, Corners, Shown}
use speed_feed.Visualizer.Lines.{AllPlain, Plain, lacks-join}
use speed_feed.Visualizer.Gates.{Reads, GateReads, AllRead}
use speed_feed.Visualizer.Telling.{Tells, Tells-silent, Tells-trans, skipped-Tells}

Plain-join : (s t : List ℕ) → Plain s → Plain t → Plain (s ++ t)
Plain-join s t p q = (lacks-join 10 s t p.0 q.0, lacks-join b',' s t p.1 q.1)

joined-Plain :
    (separator : List ℕ) (ss : List (List ℕ))
    → Plain separator
    → AllPlain ss
    → Plain (joined separator ss)
joined-Plain separator [] p ps = (refl, refl)
joined-Plain separator (s ∷ []) p ps = ps.0
joined-Plain separator (s ∷ (t ∷ ss)) p ps =
    let rest = joined separator (t ∷ ss) in
    Plain-join s (separator ++ rest) ps.0
      (Plain-join separator rest p (joined-Plain separator (t ∷ ss) p ps.1))

module _ (D : Double) (J : Java) where
  open D use {Real, show8}
  open J use {Float}

  GateReads-ends :
      (p q : Waypoint Real) (e : Corners Float)
      → ends p ≡ ends q
      → GateReads D J q e
      → GateReads D J p e
  GateReads-ends p q e h r = record {
    x1 = subst (λ x. Reads D J x e.x1) (sym (ap (λ c. c.0) h)) r.x1;
    y1 = subst (λ x. Reads D J x e.y1) (sym (ap (λ c. c.1) h)) r.y1;
    x2 = subst (λ x. Reads D J x e.x2) (sym (ap (λ c. c.2) h)) r.x2;
    y2 = subst (λ x. Reads D J x e.y2) (sym (ap (λ c. c.3) h)) r.y2;
  }

  pub AllRead-ends :
      (ps qs : List (Waypoint Real)) (es : List (Corners Float))
      → map ends ps ≡ map ends qs
      → AllRead D J qs es
      → AllRead D J ps es
  AllRead-ends [] [] es h r = r
  AllRead-ends [] (q ∷ qs) es h r = cc
  AllRead-ends (p ∷ ps) [] es h r = cc
  AllRead-ends (p ∷ ps) (q ∷ qs) [] h r = r
  AllRead-ends (p ∷ ps) (q ∷ qs) (e ∷ es) h r =
      (GateReads-ends p q e (cc) r.0, AllRead-ends ps qs es (cc) r.1)

  corners-Plain :
      (p : Waypoint Real) (e : Corners Float)
      → GateReads D J p e
      → Plain (joined (b' ' ∷ []) (corner_texts D p))
  corners-Plain p e r =
      joined-Plain (b' ' ∷ []) (corner_texts D p) (refl, refl)
        (r.x1.plain, (r.y1.plain, (r.x2.plain, (r.y2.plain, refl))))

  echo_gate-Tells :
      (B : Bus) (ps : List (Waypoint Real)) (p : Waypoint Real) (e : Corners Float) (i : ℕ)
      (w : World) (v : Shown J)
      → i ≡ length ps
      → GateReads D J p e
      → Tells J w (echo_gate D B i (ps ++ (p ∷ [])) w) v v
  unfolding echo_gate
  echo_gate-Tells B [] p e zero w v h r =
      skipped-Tells J (joined (b' ' ∷ []) (corner_texts D p)) w v (corners-Plain p e r)
  echo_gate-Tells B [] p e (suc i) w v h r = absurd (omega arith)
  echo_gate-Tells B (q ∷ ps) p e zero w v h r = absurd (omega arith)
  echo_gate-Tells B (q ∷ ps) p e (suc i) w v h r = echo_gate-Tells B ps p e i w v (omega arith) r

module _ (D : Double) (L : IsLayout D) (B : Bus) (E : IsEeprom B) (d : ℕ) (J : Java) where
  open D use {Real, literal, show_hex}
  open B use {State}

  load_each-Tells :
      (memory : ℕ → Waypoint Real) (n i address : ℕ) (ps qs : List (Waypoint Real))
      (es : List (Corners J.Float)) (w : World) (s : State) (v : Shown J)
      → i ≡ length ps
      → n ≤ length qs
      → address + 32 * n ≤ capacity
      → HoldsGates D L B E d s address qs
      → AllRead D J qs es
      → Tells J w (load_each D B memory n i d address ps w s).1 v v
  unfolding load_each new_waypoint
  load_each-Tells memory zero i address ps qs es w s v e h k held r = Tells-silent J w w v refl
  load_each-Tells memory (suc n) i address ps [] es w s v e h k held r = absurd (omega arith)
  load_each-Tells memory (suc n) i address ps (q ∷ qs) [] w s v e h k held r = cc
  load_each-Tells memory (suc n) i address ps (q ∷ qs) (c ∷ es) w s v e h k held r =
      let o = literal 0 in
      let (p, w') = new_waypoint D (memory i) o o o o o w in
      let (g, s') = load_gate D B d address p s in
      let same = load_gate-Holds D L B E d q p qs address s (omega arith) held in
      let ps' = ps ++ (g ∷ []) in
      let w'' = echo_gate D B i ps' w' in
      let next = address + 8 + 8 + 8 + 8 in
      let told =
        echo_gate-Tells D J B ps g c i w' v e
          (GateReads-ends D J g q c (ground (arith, same.0)) r.0) in
      let ih =
        load_each-Tells memory n (i + 1) next ps' qs es w'' s' v
          (omega (arith, length-append ps (g ∷ []))) (omega arith) (omega arith)
          (HoldsGates-SameCells D L B E d s s' next qs same.1 held.4) r.1 in
      subst
        (λ (x : List (Waypoint Real) × State).
          Tells J w (load_each D B memory n (i + 1) d next x.0 (echo_gate D B i x.0 w') x.1).1 v v)
        (sym (at_index-length D B (load_gate D B d address) ps p i s e))
        (Tells-trans J w w'' _ v v v
          (Tells-trans J w w' w'' v v v (Tells-silent J w w' v refl) told) ih)

  -- `loadWaypoints` on a chip that holds a track
  pub load_waypoints-Tells :
      (memory : ℕ → Waypoint Real) (ps : List (Waypoint Real)) (es : List (Corners J.Float))
      (address : ℕ) (w : World) (s : State) (v : Shown J)
      → address + 5 + 32 * length ps ≤ capacity
      → HoldsTrack D L B E d s address ps
      → AllRead D J ps es
      → Plain (show_hex marker)
      → Tells J w (load_waypoints D B memory d address [] w s).1 v v
  unfolding load_waypoints
  load_waypoints-Tells memory ps es address w s0 v k c r p =
      let r1 = read_anything-Holds B E d (marker ∷ []) address 1 s0 refl (omega arith) (c.0, tt) in
      let s1 = (read_anything B d address 1 s0).1 in
      let r2 =
        read_anything-Holds B E d (length ps % 256 ∷ []) (address + 1) 1 s1 refl (omega arith)
          (r1.1 (address + 1) ∙ c.1, tt) in
      let s2 = (read_anything B d (address + 1) 1 s1).1 in
      let w' = echo_marker D B (marker ∷ []) w in
      rw (r1.0, r2.0)
        (Tells-trans J w w' _ v v v (skipped-Tells J (show_hex marker) w v p) (
          load_each-Tells memory (length ps % 256) 0 (address + 1 + 1) [] ps es w' s2 v refl
            (omega arith) (omega arith)
            (HoldsGates-SameCells D L B E d s0 s2 (address + 1 + 1) ps (λ a. r2.1 a ∙ r1.1 a) c.2)
            r))
