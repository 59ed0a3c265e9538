-- ===== src/Protocol/Creation/Registry.antt =====
-- The table of creation.go.
use mathlib.Core.Option.{some-injective}
use velux_to_mqtt_gw.Prelude.{
  ℕ, List, [], ◌∷◌, ◌≡◌, refl, some, none, Option, ◌==◌, if◌then◌else◌, arith, Option-cases, inl,
  inr, Bool-cases, ==_iff, sym,
}
use velux_to_mqtt_gw.Protocol.Message.{Frame, command}
use velux_to_mqtt_gw.Protocol.Constructors.{constructors}
use velux_to_mqtt_gw.Protocol.Creation.{Registry, register_all, frame_registry, create_frame}

-- The first frame of a list that has a command code.
abbrev pub first_with : ℕ → List Frame → Option Frame
first_with code [] = none
first_with code (f ∷ fs) = if command f == code then some f else first_with code fs

abbrev pub or_before : Option Frame → Option Frame → Option Frame
or_before none before = before
or_before (some f) before = some f

abbrev IsUnchanged : Registry → Registry → ℕ → Type 0
IsUnchanged registry more code =
    (f : Frame) → create_frame registry code ≡ some f → create_frame more code ≡ some f

made_and_kept :
    (registry more : Registry) (fs : List Frame) (code : ℕ)
    → register_all registry fs ≡ some more
    → (create_frame more code ≡ or_before (first_with code fs) (create_frame registry code))
      × IsUnchanged registry more code
unfolding register_all create_frame
made_and_kept registry more [] code h = by_same (some-injective registry more h)
  where
    by_same :
        registry ≡ more
        → (create_frame more code ≡ create_frame registry code) × IsUnchanged registry more code
    by_same e = rw (sym e) (refl, λ f h. h)
made_and_kept registry more (f ∷ fs) code h =
    elim (Option-cases (create_frame registry (command f))) [
      | inl e ↦
          let (made, kept) =
            made_and_kept ((command f, f) ∷ registry) more fs code (rw (register_all, e) at h) in
          elim (Bool-cases (command f == code)) [
            | inl same ↦ (
              rw (same, kept f (rw (create_frame, same))),
              λ g hg. absurd (ground (arith, e, hg, (==_iff (command f) code).0 same)),
            )
            | inr other ↦ (
              rw other (rw (create_frame, other) at made),
              λ g hg. kept g (rw (create_frame, other) hg),
            )
          ]
      | inr (g, e) ↦ absurd (ground (arith, rw (register_all, e) at h))
    ]

kept-or_before :
    (now before made : Option Frame)
    → now ≡ or_before made before
    → ((f : Frame) → before ≡ some f → now ≡ some f)
    → now ≡ or_before before made
kept-or_before now none none h k = h
kept-or_before now none (some g) h k = h
kept-or_before now (some f) made h k = k f refl

-- Where the registrations do not panic, a code makes the frame that was registered for it or else what it
-- made before, and as well what it made before or else the frame that was registered for it: it never
-- has two meanings, and no registration replaces another.
pub register_all-create :
    (registry more : Registry) (fs : List Frame) (code : ℕ)
    → register_all registry fs ≡ some more
    → (create_frame more code ≡ or_before (first_with code fs) (create_frame registry code))
      × (create_frame more code ≡ or_before (create_frame registry code) (first_with code fs))
register_all-create registry more fs code h =
    let (made, kept) = made_and_kept registry more fs code h in
    (
      made,
      kept-or_before (create_frame more code) (create_frame registry code) (first_with code fs) made
          kept,
    )

-- The constructors of the model's frame types have different command codes.
register_all_total : (registry : List (ℕ × Frame)) × (register_all [] constructors ≡ some registry)
unfolding register_all
register_all_total = (frame_registry, unfold frame_registry in refl)
