-- ===== src/Image/Load/Devices.antt =====
-- Which devices the walk of `monoimage_load` over /dev ends with.
use monoimage.Prelude.{
  ℕ, ◌≡◌, ◌⊎◌, refl, ap, sym, ◌∙◌, inl, inr, Bool, true, false, ◌&&◌, List, [], ◌∷◌, ◌++◌, ◌==◌,
  ltb, if◌then◌else◌, Bytes, codes, arith, Bool-cases, length,
}
use monoimage.Image.Load.{
  Node, Stat, ok, absent, stat_error, System, done, Walk, note_device, walk_dev, buf_size,
}

-- The node that the walk sees for a name: what stat says of it, or else what it said last, `before`.
abbrev pub seen_node : System → (name : Bytes) → (before : Node) → Node
seen_node s name before = elim (s.stat (codes "/dev/" ++ name)) [
  | ok node ↦ node
  | absent ↦ before
  | stat_error ↦ before
]

-- Is the node that of the block device with the number?
abbrev pub is_device : ℕ → Node → Bool
is_device number node = (node.st_rdev == number) && node.is_block

-- The node that was seen last after some names.
abbrev pub last_node : System → List Bytes → Node → Node
last_node s [] node = node
last_node s (name ∷ names) node = last_node s names (seen_node s name node)

-- No name is seen as that device.
abbrev pub NoDevice : System → ℕ → List Bytes → Node → Type 0
NoDevice s number [] node = Unit
NoDevice s number (name ∷ names) node =
    (is_device number (seen_node s name node) ≡ false)
    × NoDevice s number names (seen_node s name node)

-- The path is that of the last name that is seen as the block device with the number; where there is
-- none, it is what the array held before it was written.
abbrev pub IsDeviceAt : System → ℕ → List Bytes → (node : Node) → (unwritten path : Bytes) → Type 0
IsDeviceAt s number names node unwritten path =
    (NoDevice s number names node × (path ≡ unwritten))
    ⊎ ((before : List Bytes) × (name : Bytes) × (after : List Bytes) × (names
          ≡ before ++ name ∷ after)
        × (path ≡ codes "/dev/" ++ name)
        × (is_device number (last_node s (before ++ name ∷ []) node) ≡ true)
        × NoDevice s number after (last_node s (before ++ name ∷ []) node))

abbrev chosen : (number : ℕ) → (path : Bytes) → Node → Bytes → Bytes
chosen number path node old = if is_device number node then path else old

abbrev last_path : System → ℕ → List Bytes → Node → Bytes → Bytes
last_path s number [] node old = old
last_path s number (name ∷ names) node old =
    last_path s number names (seen_node s name node)
      (chosen number (codes "/dev/" ++ name) (seen_node s name node) old)

last_path-IsDeviceAt :
    (s : System) (number : ℕ) (names : List Bytes) (node : Node) (old : Bytes)
    → IsDeviceAt s number names node old (last_path s number names node old)
last_path-IsDeviceAt s number [] node old = inl (tt, refl)
last_path-IsDeviceAt s number (name ∷ names) node old =
    let seen = seen_node s name node in
    elim (last_path-IsDeviceAt s number names seen
      (chosen number (codes "/dev/" ++ name) seen old)) [
        | inr (before, x, after, split, path, is, none) ↦
            inr (name ∷ before, x, after, ap (◌∷◌ name) split, path, is, none)
        | inl (none, path) ↦ elim (Bool-cases (is_device number (seen_node s name node))) [
          | inl e ↦ inr ([], name, names, refl, rw path (rw e refl), e, none)
          | inr e ↦ inl ((e, none), rw path (rw e refl))
        ]
      ]

seen_node-ok :
    (s : System) (name : Bytes) (before node : Node)
    → s.stat (codes "/dev/" ++ name) ≡ ok node
    → seen_node s name before ≡ node
seen_node-ok s name before node e = rw (e, seen_node) refl

seen_node-absent :
    (s : System) (name : Bytes) (before : Node)
    → s.stat (codes "/dev/" ++ name) ≡ absent
    → seen_node s name before ≡ before
seen_node-absent s name before e = rw (e, seen_node) refl

last_path-seen :
    (s : System) (number : ℕ) (name : Bytes) (names : List Bytes) (before node : Node) (old : Bytes)
    → seen_node s name before ≡ node
    → last_path s number names node (chosen number (codes "/dev/" ++ name) node old)
      ≡ last_path s number (name ∷ names) before old
last_path-seen s number name names before node old e =
    ap (λ n. last_path s number names n (chosen number (codes "/dev/" ++ name) n old)) (sym e)

-- What the walk ends with, by the node that it has seen before and the two paths.
walk_dev-last_path :
    (s : System) (i c : ℕ) (names : List Bytes) (w w' : Walk)
    → walk_dev s i c names w ≡ done w'
    → (w'.images_dev ≡ last_path s i names w.devbuf w.images_dev)
      × (w'.config_dev ≡ last_path s c names w.devbuf w.config_dev)
unfolding walk_dev note_device
walk_dev-last_path s i c [] w w' h = (ground arith, ground arith)
walk_dev-last_path s i c (name ∷ names) w w' h =
    elim (Bool-cases (ltb (length (codes "/dev/" ++ name)) buf_size)) [
      | inr e ↦ absurd (ground (arith, h, e))
      | inl e ↦
          of_stat (s.stat (codes "/dev/" ++ name)) refl e (λ v. walk_dev-last_path s i c names v w')
    ]
  where
    path : Bytes
    path = codes "/dev/" ++ name

    of_stat :
        (a : Stat)
        → s.stat path ≡ a
        → ltb (length path) buf_size ≡ true
        → ((v : Walk)
            → walk_dev s i c names v ≡ done w'
            → (w'.images_dev ≡ last_path s i names v.devbuf v.images_dev)
              × (w'.config_dev ≡ last_path s c names v.devbuf v.config_dev))
        → (w'.images_dev ≡ last_path s i (name ∷ names) w.devbuf w.images_dev)
          × (w'.config_dev ≡ last_path s c (name ∷ names) w.devbuf w.config_dev)
    of_stat (ok node) a e next =
        let seen = seen_node-ok s name w.devbuf node a in
        let (images, config) = next (note_device i c path node w) (rw (a, e, walk_dev) at h) in
        (
          images ∙ last_path-seen s i name names w.devbuf node w.images_dev seen,
          config ∙ last_path-seen s c name names w.devbuf node w.config_dev seen,
        )
    of_stat absent a e next =
        let seen = seen_node-absent s name w.devbuf a in
        let (images, config) = next (note_device i c path w.devbuf w) (rw (a, e, walk_dev) at h) in
        (
          images ∙ last_path-seen s i name names w.devbuf w.devbuf w.images_dev seen,
          config ∙ last_path-seen s c name names w.devbuf w.devbuf w.config_dev seen,
        )
    of_stat stat_error a e next = absurd (ground (arith, h, a, e))

-- The image's device and that of the configuration, each by its own number.
pub walk_dev-IsDeviceAt :
    (s : System) (i c : ℕ) (names : List Bytes) (w w' : Walk)
    → walk_dev s i c names w ≡ done w'
    → IsDeviceAt s i names w.devbuf w.images_dev w'.images_dev
      × IsDeviceAt s c names w.devbuf w.config_dev w'.config_dev
walk_dev-IsDeviceAt s i c names w w' h =
    let (images, config) = walk_dev-last_path s i c names w w' h in
    (
      rw images (last_path-IsDeviceAt s i names w.devbuf w.images_dev),
      rw config (last_path-IsDeviceAt s c names w.devbuf w.config_dev),
    )
