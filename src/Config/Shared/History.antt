-- ===== src/Config/Shared/History.antt =====
-- What can be live when several threads reload, config/mod.rs.
use rust_commons.Prelude.{
  ℕ, ◌≡◌, ◌≢◌, refl, true, false, Option, none, some, List, [], ◌∷◌, ◌++◌, Result, ok, err, ◌==◌,
  ==_iff, Member, here, there, Bool-cases, Result-cases, inl, inr, arith,
}
use rust_commons.Config.{ConfigError, Live, replace, snapshot, Load, try_reload}
use rust_commons.Config.Shared.{
  Shared, Act, loads, swaps, edits, after_load, on_loads, on_swaps, reload_act, run_acts,
}

module _ {W J T : Type 0} (source : Load W J T) where
  abbrev loaded_value : Result (ConfigError J) T → List T
  loaded_value (ok next) = next ∷ []
  loaded_value (err e) = []

  abbrev loaded_by : Option T → Result (ConfigError J) T → List T
  loaded_by none r = loaded_value r
  loaded_by (some _) r = []

  abbrev pub loaded_at : Act W → Shared W T → List T
  loaded_at (loads i) s = loaded_by (s.held i) (source.load s.world).0
  loaded_at _ s = []

  -- The values that the loads of a schedule have given, from the last to the first, before `seen`.
  unfoldable pub loaded : List (Act W) → Shared W T → List T → List T
  loaded [] s seen = seen
  loaded (a ∷ acts) s seen = loaded acts (reload_act source a s) (loaded_at a s ++ seen)

  -- What is live, and what threads hold, has been loaded, or was live at first.
  record IsFrom (seen : List T) (s : Shared W T) : Type 0 where
    live_seen : Member (snapshot s.live) seen
    held_seen : (i : ℕ) (v : T) → s.held i ≡ some v → Member v seen

  after_load-IsFrom :
      (i : ℕ) (x : Result (ConfigError J) T × W) (s : Shared W T) (seen : List T)
      → IsFrom seen s
      → IsFrom (loaded_value x.0 ++ seen) (after_load source i x s)
  after_load-IsFrom i (ok next, w) s seen h = record {
    live_seen = there h.live_seen;
    held_seen = λ j v e. elim (Bool-cases (i == j)) [
      | inl same ↦ here (cc (rw same at e))
      | inr differ ↦ there (h.held_seen j v (rw differ at e))
    ];
  }
  after_load-IsFrom i (err e, w) s seen h = record {
    live_seen = h.live_seen;
    held_seen = h.held_seen;
  }

  on_loads-IsFrom :
      (i : ℕ) (o : Option T) (s : Shared W T) (seen : List T)
      → IsFrom seen s
      → IsFrom (loaded_by o (source.load s.world).0 ++ seen) (on_loads source i o s)
  on_loads-IsFrom i none s seen h = after_load-IsFrom i (source.load s.world) s seen h
  on_loads-IsFrom i (some _) s seen h = h

  snapshot-replace : (next : T) (live : Live T) → snapshot (replace next live) ≡ next
  unfolding snapshot replace
  snapshot-replace next live = ground arith

  on_swaps-IsFrom :
      (i : ℕ) (o : Option T) (s : Shared W T) (seen : List T)
      → s.held i ≡ o
      → IsFrom seen s
      → IsFrom seen (on_swaps source i o s)
  on_swaps-IsFrom i none s seen at h = h
  on_swaps-IsFrom i (some next) s seen at h = record {
    live_seen = rw (snapshot-replace next s.live) (h.held_seen i next at);
    held_seen = λ j v e. elim (Bool-cases (i == j)) [
      | inl same ↦ cc (rw same at e)
      | inr differ ↦ h.held_seen j v (rw differ at e)
    ];
  }

  reload_act-IsFrom :
      (a : Act W) (s : Shared W T) (seen : List T)
      → IsFrom seen s
      → IsFrom (loaded_at a s ++ seen) (reload_act source a s)
  unfolding reload_act
  reload_act-IsFrom (loads i) s seen h = on_loads-IsFrom i (s.held i) s seen h
  reload_act-IsFrom (swaps i) s seen h = on_swaps-IsFrom i (s.held i) s seen refl h
  reload_act-IsFrom (edits w) s seen h = record { live_seen = h.live_seen; held_seen = h.held_seen }

  run_acts-IsFrom :
      (acts : List (Act W)) (s : Shared W T) (seen : List T)
      → IsFrom seen s
      → IsFrom (loaded acts s seen) (run_acts source acts s)
  unfolding run_acts loaded
  run_acts-IsFrom [] s seen h = h
  run_acts-IsFrom (a ∷ acts) s seen h =
      run_acts-IsFrom acts (reload_act source a s) (loaded_at a s ++ seen)
        (reload_act-IsFrom a s seen h)

  -- However threads that reload and edits of the system interleave, if no thread has begun a reload
  -- at first: the snapshot is the one that was live then, or a value that one of the loads has given.
  pub snapshot_was_loaded :
      (acts : List (Act W)) (s : Shared W T)
      → ((i : ℕ) → s.held i ≡ none)
      → Member (snapshot (run_acts source acts s).live) (loaded acts s (snapshot s.live ∷ []))
  snapshot_was_loaded acts s idle =
      (run_acts-IsFrom acts s (snapshot s.live ∷ [])
        (record { live_seen = here refl; held_seen = λ i v e. cc (idle i) })).live_seen

  -- Two threads that have begun no reload do so, the one before an edit and the other after it, by
  -- loads that succeed and leave the system as it is; if the first swaps its value in last, the value
  -- from before the edit is live, although a later reload has succeeded and neither has anything left
  -- to do.
  pub older_load_wins :
      (i j : ℕ) (s : Shared W T) (w : W) (old new : T)
      → i ≢ j
      → s.held i ≡ none
      → s.held j ≡ none
      → source.load s.world ≡ (ok old, s.world)
      → source.load w ≡ (ok new, w)
      → let t = run_acts source (loads i ∷ edits w ∷ loads j ∷ swaps j ∷ swaps i ∷ []) s in
        (snapshot t.live ≡ old) × (t.world ≡ w) × (t.held i ≡ none) × (t.held j ≡ none)
  unfolding run_acts reload_act
  older_load_wins i j s w old new differ hi hj before after =
      let ii : (i == i) ≡ true = (==_iff i i).1 refl in
      let jj : (j == j) ≡ true = (==_iff j j).1 refl in
      let ij : (i == j) ≡ false = ground arith in
      let ji : (j == i) ≡ false = ground arith in
      rw (hi, before, ij, hj, after, jj, ji, ii)
        (snapshot-replace old _, refl, rw ii refl, rw (ij, jj) refl)

  -- A thread that has begun no reload, and makes one with no other thread in between, does what
  -- `try_reload` does to the live value and the system, and has begun none behind it.
  pub reload_alone :
      (i : ℕ) (s : Shared W T)
      → s.held i ≡ none
      → let t = run_acts source (loads i ∷ swaps i ∷ []) s in
        let r = (try_reload source (record { world = s.world; live = s.live })).1 in
        (t.live ≡ r.live) × (t.world ≡ r.world) × (t.held i ≡ none)
  unfolding run_acts reload_act try_reload
  reload_alone i s idle =
      let ii : (i == i) ≡ true = (==_iff i i).1 refl in
      elim (Result-cases (source.load s.world).0) [
        | inl (next, e) ↦ rw (idle, e, ii) (refl, refl, rw ii refl)
        | inr (x, e) ↦ rw (idle, e, idle) (refl, refl, idle)
      ]
