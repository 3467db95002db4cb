-- ===== src/Rpc/Node/Publish/Modes.antt =====
-- Whether the options of a mount make it read-only: mount(8) applies them from left to right, and the
-- last one wins.
use zenlayer_cloud_csi_drive.Prelude.{
  ◌≡◌, refl, ap, sym, ◌∙◌, Bool, true, false, ◌||◌, List, [], ◌∷◌, ◌++◌, any, Option, none, some,
  Text, codes, str_eq, if◌then◌else◌, Bool-cases, Option-cases, ◌⊎◌, inl, inr,
}
use mathlib.Core.List.{append_assoc}
use zenlayer_cloud_csi_drive.Prelude.Lines.{split}
use zenlayer_cloud_csi_drive.Driver.Capability.{MountVolume}
use zenlayer_cloud_csi_drive.Rpc.Node.Server.{add_mount_flags, feat_mountopt_enable}
use zenlayer_cloud_csi_drive.Rpc.Node.Publish.{bind_options}

-- An option may hold several, with commas between them.
abbrev pub pieces : List Text → List Text
pieces [] = []
pieces (o ∷ os) = split b',' o ++ pieces os

-- What an option says of the mode; `defaults` stands for `rw` and others.
unfoldable pub said : Text → Option Bool
said o =
    if str_eq o (codes "ro")
    then some true
    else if str_eq o (codes "rw") || str_eq o (codes "defaults")
    then some false
    else none

abbrev pub or_else : Bool → Option Bool → Bool
or_else b none = b
or_else b (some x) = x

-- The mode after some options, from the one before them.
unfoldable pub read_only_after : Bool → List Text → Bool
unfolding said
read_only_after b [] = b
read_only_after b (o ∷ os) = read_only_after (or_else b (said o)) os

-- The flags of the request that take part: those of a file system, if the feature gate is on.
abbrev pub active_flags : List Text → Option MountVolume → List Text
active_flags gates none = []
active_flags gates (some m) =
    if any (λ g. str_eq g feat_mountopt_enable) gates then m.mount_flags else []

read_only_after-append :
    (xs ys : List Text) (b : Bool)
    → read_only_after b (xs ++ ys) ≡ read_only_after (read_only_after b xs) ys
unfolding read_only_after
read_only_after-append [] ys b = refl
read_only_after-append (x ∷ xs) ys b = read_only_after-append xs ys (or_else b (said x))

pieces-append : (xs ys : List Text) → pieces (xs ++ ys) ≡ pieces xs ++ pieces ys
pieces-append [] ys = refl
pieces-append (x ∷ xs) ys =
    ap (λ p. split b',' x ++ p) (pieces-append xs ys)
    ∙ sym (append_assoc (split b',' x) (pieces xs) (pieces ys))

-- The options decide the mode, or leave it as it is.
read_only_after-cases :
    (ys : List Text)
    → ((b : Bool) → read_only_after b ys ≡ b)
      ⊎ ((x : Bool) × ((b : Bool) → read_only_after b ys ≡ x))
unfolding read_only_after
read_only_after-cases [] = inl (λ b. refl)
read_only_after-cases (y ∷ ys) = elim (read_only_after-cases ys) [
  | inr (x, k) ↦ inr (x, λ b. k (or_else b (said y)))
  | inl k ↦ elim (Option-cases (said y)) [
    | inl e ↦ inl (λ b. k (or_else b (said y)) ∙ ap (or_else b) e)
    | inr (x, e) ↦ inr (x, λ b. k (or_else b (said y)) ∙ ap (or_else b) e)
  ]
]

read_only_after_twice :
    (b : Bool) (ys : List Text) → read_only_after (read_only_after b ys) ys ≡ read_only_after b ys
read_only_after_twice b ys = elim (read_only_after-cases ys) [
  | inl k ↦ k (read_only_after b ys)
  | inr (x, k) ↦ k (read_only_after b ys) ∙ sym (k b)
]

-- The flags are added once, several times or not at all: the mode is that of adding them once or not.
add_mount_flags-mode :
    (gates flags options : List Text) (b : Bool)
    → read_only_after b (pieces (add_mount_flags gates flags options))
      ≡ read_only_after
          (read_only_after b (pieces options))
          (pieces (if any (λ g. str_eq g feat_mountopt_enable) gates then flags else []))
unfolding add_mount_flags read_only_after
add_mount_flags-mode [] flags options b = refl
add_mount_flags-mode (g ∷ gs) flags options b = elim (Bool-cases (str_eq g feat_mountopt_enable)) [
  | inr off ↦ rw off (add_mount_flags-mode gs flags options b)
  | inl on ↦
      let added =
        ap (read_only_after b) (pieces-append options flags)
        ∙ read_only_after-append (pieces options) (pieces flags) b in
      let rest = add_mount_flags-mode gs flags (options ++ flags) b in
      rw on (elim (Bool-cases (any (λ h. str_eq h feat_mountopt_enable) gs)) [
        | inl more ↦
            (rw more at rest)
            ∙ ap (λ x. read_only_after x (pieces flags)) added
            ∙ read_only_after_twice (read_only_after b (pieces options)) (pieces flags)
        | inr last ↦ (rw last at rest) ∙ added
      ])
]

-- The mode of a bind mount of NodePublishVolume.
pub bind_options-mode :
    (gates : List Text) (readonly : Bool) (m : Option MountVolume)
    → read_only_after false (pieces (bind_options gates readonly m))
      ≡ read_only_after readonly (pieces (active_flags gates m))
unfolding bind_options read_only_after said split str_eq
bind_options-mode gates true none = refl
bind_options-mode gates false none = refl
bind_options-mode gates true (some m) =
    add_mount_flags-mode gates m.mount_flags (codes "bind" ∷ codes "ro" ∷ []) false
bind_options-mode gates false (some m) =
    add_mount_flags-mode gates m.mount_flags (codes "bind" ∷ []) false
