-- ===== src/Runtime/Registry.antt =====
-- hal/camera_hal_runtime.cpp: what `register_session` and `unregister_session` leave in the table of
-- callbacks.
use minicam_hal.Common.{
  ℤ, ◌≡◌, ◌⊎◌, inl, inr, refl, Bool, true, false, ◌||◌, Option, none, some, List, [], ◌∷◌, ◌++◌,
  if◌then◌else◌, is_neg, is_empty, ◌==ℤ◌, ==ℤ_self, arith, Bool-cases,
}
use mathlib.Core.List.{append-nil, append_assoc}
use minicam_hal.Runtime.Table.{lookup, put, lookup-remove, lookup-put}
use minicam_hal.Runtime.Epoll.{
  EpollKernel, EpollEventLoop, Added, added, add_exists, add_failed, register_fd, unregister_fd,
}
use minicam_hal.Runtime.Sessions.{
  CameraHalRuntime, unregister_fds, register_fds, register_session, unregister_each,
  unregister_session,
}

-- Does the file stand in the list?
abbrev pub listed : ℤ → List ℤ → Bool
listed fd [] = false
listed fd (x ∷ xs) = x ==ℤ fd || listed fd xs

-- The files that `register_session` asks for.
abbrev pub watched : List ℤ → List ℤ
watched [] = []
watched (fd ∷ fds) = if is_neg fd then watched fds else fd ∷ watched fds

Added-cases : (a : Added) → (a ≡ added) ⊎ ((a ≡ add_exists) ⊎ (a ≡ add_failed))
Added-cases added = inl refl
Added-cases add_exists = inr (inl refl)
Added-cases add_failed = inr (inr refl)

-- A callback is still the one it was, or gone.
abbrev pub Gone : {W : Type 0} → Option W → Option W → Type 0
Gone before after = (after ≡ before) ⊎ (after ≡ none)

listed-append : (j : ℤ) (xs ys : List ℤ) → listed j (xs ++ ys) ≡ (listed j xs || listed j ys)
listed-append j [] ys = refl
listed-append j (x ∷ xs) ys = ground (arith, listed-append j xs ys)

module _ {W K : Type 0} (kern : EpollKernel K) where
  unregister-callbacks :
      (fd j : ℤ) (l : EpollEventLoop W K)
      → lookup j (unregister_fd kern fd l).callbacks
        ≡ (if fd ==ℤ j then none else lookup j l.callbacks)
  unfolding unregister_fd
  unregister-callbacks fd j l = lookup-remove fd j l.callbacks

  register-true :
      (fd j : ℤ) (w : W) (l : EpollEventLoop W K)
      → (register_fd kern fd w l).0 ≡ true
      → lookup j (register_fd kern fd w l).1.callbacks
        ≡ (if fd ==ℤ j then some w else lookup j l.callbacks)
  unfolding register_fd
  register-true fd j w l h = ground (arith, h, lookup-put fd j w l.callbacks)

  register-false :
      (fd j : ℤ) (w : W) (l : EpollEventLoop W K)
      → (register_fd kern fd w l).0 ≡ false
      → Gone (lookup j l.callbacks) (lookup j (register_fd kern fd w l).1.callbacks)
  unfolding register_fd
  register-false fd j w l h = elim (Bool-cases (fd ==ℤ j)) [
    | inl e ↦
        ground
          (arith, h, e, lookup-put fd j w l.callbacks, lookup-remove fd j (put fd w l.callbacks))
    | inr e ↦
        ground
          (arith, h, e, lookup-put fd j w l.callbacks, lookup-remove fd j (put fd w l.callbacks))
  ]

  unregister_fds-callbacks :
      (j : ℤ) (fds : List ℤ) (l : EpollEventLoop W K)
      → lookup j (unregister_fds kern fds l).callbacks
        ≡ (if listed j fds then none else lookup j l.callbacks)
  unfolding unregister_fds
  unregister_fds-callbacks j [] l = refl
  unregister_fds-callbacks j (fd ∷ fds) l =
      ground (
        arith,
        unregister_fds-callbacks j fds (unregister_fd kern fd l),
        unregister-callbacks fd j l,
      )

  -- The registration of every file succeeds, or what it wrote is taken back.
  register_fds-callbacks :
      (j : ℤ) (w : W) (done fds : List ℤ) (before l : EpollEventLoop W K)
      → lookup j l.callbacks ≡ (if listed j done then some w else lookup j before.callbacks)
      → let result = register_fds kern w done fds l in
        ((result.0 ≡ some (done ++ watched fds))
          × (lookup j result.1.callbacks
              ≡ (if listed j (done ++ watched fds) then some w else lookup j before.callbacks)))
        ⊎ ((result.0 ≡ none) × Gone (lookup j before.callbacks) (lookup j result.1.callbacks))
  unfolding register_fds
  register_fds-callbacks j w done [] before l h =
      inl (ground (arith, append-nil done), ground (arith, append-nil done, h))
  register_fds-callbacks j w done (fd ∷ fds) before l h = elim (Bool-cases (is_neg fd)) [
    | inl e ↦ ground (arith, e, register_fds-callbacks j w done fds before l h)
    | inr e ↦ elim (Bool-cases (register_fd kern fd w l).0) [
      | inl f ↦
          let l' = (register_fd kern fd w l).1 in
          let ih =
            register_fds-callbacks j w (done ++ (fd ∷ [])) fds before l'
              (ground (arith, h, register-true fd j w l f, listed-append j done (fd ∷ []))) in
          ground (arith, e, f, ih, append_assoc done (fd ∷ []) (watched fds))
      | inr f ↦ inr (
        ground (arith, e, f),
        ground (
          arith,
          e,
          f,
          h,
          register-false fd j w l f,
          unregister_fds-callbacks j done (register_fd kern fd w l).1,
        ),
      )
    ]
  ]

  unregister_each-callbacks :
      (j : ℤ) (fds : List ℤ) (l : EpollEventLoop W K)
      → lookup j (unregister_each kern fds l).callbacks
        ≡ (if listed j (watched fds) then none else lookup j l.callbacks)
  unfolding unregister_each
  unregister_each-callbacks j [] l = refl
  unregister_each-callbacks j (fd ∷ fds) l = elim (Bool-cases (is_neg fd)) [
    | inl e ↦ ground (arith, e, unregister_each-callbacks j fds l)
    | inr e ↦ ground (
      arith,
      e,
      unregister_each-callbacks j fds (unregister_fd kern fd l),
      unregister-callbacks fd j l,
    )
  ]

module _ {W E K : Type 0} (kern : EpollKernel K) where
  -- `register_session` does all or nothing. When it succeeds, the session is entered, there is a file to
  -- watch, each of the driver's files that is none of the invalid ones has the session's callback, and
  -- every other file keeps its own. When it fails, the session is not entered, and no callback is new:
  -- each file has the callback that it had, or none.
  pub register_session-callbacks :
      (id : ℤ) (w : W) (fds : List ℤ) (r : CameraHalRuntime W E K) (j : ℤ)
      → let (ok, r') = register_session kern id w fds r in
        ((ok ≡ true)
          × (lookup id r'.sessions ≡ some w)
          × (is_empty (watched fds) ≡ false)
          × (lookup j r'.event_loop.callbacks
              ≡ (if listed j (watched fds) then some w else lookup j r.event_loop.callbacks)))
        ⊎ ((ok ≡ false)
            × (lookup id r'.sessions ≡ none)
            × Gone (lookup j r.event_loop.callbacks) (lookup j r'.event_loop.callbacks))
  unfolding register_session
  register_session-callbacks id w fds r j =
      let entered = lookup-put id id w r.sessions in
      let dropped = lookup-remove id id (put id w r.sessions) in
      elim (register_fds-callbacks kern j w [] fds r.event_loop r.event_loop refl) [
        | inl (e, f) ↦ elim (Bool-cases (is_empty (watched fds))) [
          | inl g ↦ inr (
            ground (arith, e, g),
            ground (arith, e, g, dropped, ==ℤ_self id),
            ground (arith, e, f, g),
          )
          | inr g ↦ inl (
            ground (arith, e, g),
            ground (arith, e, g, entered, ==ℤ_self id),
            g,
            ground (arith, e, f, g),
          )
        ]
        | inr (e, gone) ↦
            inr
              (ground (arith, e), ground (arith, e, dropped, ==ℤ_self id), ground (arith, e, gone))
      ]

  -- A session that was registered and is unregistered again leaves no callback on its driver's files, and
  -- those of the others as they were; its entry is gone.
  pub register_session-unregister_session :
      (id : ℤ) (w : W) (fds : List ℤ) (r : CameraHalRuntime W E K) (j : ℤ)
      → (register_session kern id w fds r).0 ≡ true
      → let r' = unregister_session kern id fds (register_session kern id w fds r).1 in
        (lookup id r'.sessions ≡ none)
        × (lookup j r'.event_loop.callbacks
            ≡ (if listed j (watched fds) then none else lookup j r.event_loop.callbacks))
  unfolding unregister_session
  register_session-unregister_session id w fds r j h =
      let r' = (register_session kern id w fds r).1 in
      let gone = lookup-remove id id r'.sessions in
      let each = unregister_each-callbacks kern j fds r'.event_loop in
      elim (register_session-callbacks id w fds r j) [
        | inl s ↦ (ground (arith, gone, ==ℤ_self id), ground (arith, each, s.3))
        | inr s ↦ ground (arith, h, s)
      ]
