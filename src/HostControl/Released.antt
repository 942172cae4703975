-- ===== src/HostControl/Released.antt =====
-- Whether plopLinuxConfig lets the drive image of a guest go (core/host-control.cxx).
use marinatb.Common.{
  ℕ, zero, suc, String, Bool, true, false, not, ◌&&◌, ◌||◌, List, [], ◌∷◌, ◌≡◌, ◌≢◌, none, refl,
  ◌∙◌, some, ap, Bool-cases, inl, inr,
}
use marinatb.Blueprint.Computer.{Computer}
use marinatb.HostControl.Command.{
  make_executable, words, Command, load_nbd, unmount, disconnect_nbd, connect_nbd, mount_partition,
  make_marina_dir, copy_script, copy_libs, copy_bins, link_service, Line, Event, ran, wrote,
}
use marinatb.HostControl.Shell.{Machine, note, Replies, attempt, must_or}
use marinatb.HostControl.Guest.{
  script_path, conf_path, service_path, release, plop_linux_config, init_script, service_lines,
}
use marinatb.HostControl.Rules.{
  Log, Ended-same, Triple, chain, noted, attempted, required, required_or, attempted_as,
}

and-false : (b : Bool) → b && false ≡ false
and-false true = refl
and-false false = refl

succeeded : ℕ → Bool
succeeded zero = true
succeeded (suc n) = false

-- Whether the image is connected after a command, from whether it was before.
unfoldable connected_by : Command → ℕ → Bool → Bool
unfolding succeeded
connected_by (connect_nbd img) n b = succeeded n || b
connected_by disconnect_nbd n b = not (succeeded n) && b
connected_by _ n b = b

unfoldable mounted_by : Command → ℕ → Bool → Bool
unfolding succeeded
mounted_by mount_partition n b = succeeded n || b
mounted_by unmount n b = not (succeeded n) && b
mounted_by _ n b = b

unfoldable pub connected : List Event → Bool
unfolding connected_by
connected [] = false
connected (ran c n ∷ l) = connected_by c n (connected l)
connected (_ ∷ l) = connected l

unfoldable pub mounted : List Event → Bool
unfolding mounted_by
mounted [] = false
mounted (ran c n ∷ l) = mounted_by c n (mounted l)
mounted (_ ∷ l) = mounted l

-- Whether a command comes at its time: an image is connected and mounted where none is, and it is
-- mounted while it is connected and disconnected while it is not mounted.
unfoldable timely : Command → Bool → Bool → Bool
timely (connect_nbd img) c m = not c && not m
timely mount_partition c m = c && not m
timely disconnect_nbd c m = not m
timely _ c m = true

unfoldable pub orderly : List Event → Bool
unfolding timely
orderly [] = true
orderly (ran c n ∷ l) = timely c (connected l) (mounted l) && orderly l
orderly (_ ∷ l) = orderly l

-- What is known of the image: whether it is connected and mounted.
abbrev At : Bool → Bool → Log
At c m l = (connected l ≡ c) × (mounted l ≡ m) × (orderly l ≡ true)

abbrev Orderly : Log
Orderly l = orderly l ≡ true

abbrev Unmounted : Log
Unmounted l = (mounted l ≡ false) × (orderly l ≡ true)

abbrev Free : Log
Free = At false false

-- What a mounted image or a connected device is let go by succeeds.
abbrev pub LetsGo : Replies → Type 0
LetsGo reply =
    ((l : List Event) (n : ℕ) → mounted l ≡ true → reply l unmount ≡ some n → n ≡ 0)
    × ((l : List Event) (n : ℕ)
        → connected l ≡ true
        → mounted l ≡ false
        → reply l disconnect_nbd ≡ some n
        → n ≡ 0)

module _ (reply : Replies) (starts : (l : List Event) (c : Command) → reply l c ≢ none)
    (lets_go : LetsGo reply) where
  -- A command that does not touch the image.
  abbrev Neutral : Command → Type 0
  Neutral x =
      ((n : ℕ) (b : Bool) → connected_by x n b ≡ b)
      × ((n : ℕ) (b : Bool) → mounted_by x n b ≡ b)
      × ((c m : Bool) → timely x c m ≡ true)

  Neutral-At :
      {c m : Bool} (x : Command) (n : ℕ) (l : List Event)
      → Neutral x
      → At c m l
      → At c m (ran x n ∷ l)
  unfolding connected mounted orderly
  Neutral-At x n l t h = (
    t.0 n (connected l) ∙ h.0,
    t.1 n (mounted l) ∙ h.1,
    rw (t.2 (connected l) (mounted l), h.2) refl,
  )

  unmount-Unmounted :
      (l : List Event) (n : ℕ)
      → reply l unmount ≡ some n
      → Orderly l
      → Unmounted (ran unmount n ∷ l)
  unfolding mounted orderly mounted_by timely
  unmount-Unmounted l n q h = elim (Bool-cases (mounted l)) [
    | inl m ↦ rw (m, lets_go.0 l n m q) (refl, h)
    | inr m ↦ (ap (λ b. not (succeeded n) && b) m ∙ and-false (not (succeeded n)), h)
  ]

  disconnect-Free :
      (l : List Event) (n : ℕ)
      → reply l disconnect_nbd ≡ some n
      → Unmounted l
      → Free (ran disconnect_nbd n ∷ l)
  unfolding connected mounted orderly connected_by mounted_by timely
  disconnect-Free l n q h = elim (Bool-cases (connected l)) [
    | inl c ↦ (
      ap (λ i. not (succeeded i) && connected l) (lets_go.1 l n c h.0 q),
      h.0,
      rw (h.0, h.1) refl,
    )
    | inr c ↦ (
      ap (λ b. not (succeeded n) && b) c ∙ and-false (not (succeeded n)),
      h.0,
      rw (h.0, h.1) refl,
    )
  ]

  -- umount and qemu-nbd --disconnect, with what they leave.
  unmount_all : Triple Orderly (attempt reply unmount) Unmounted Free
  unmount_all = attempted_as reply unmount (λ l q h. absurd (starts l unmount q)) unmount-Unmounted

  disconnect_all : Triple Unmounted (attempt reply disconnect_nbd) Free Free
  disconnect_all =
      attempted_as reply disconnect_nbd (λ l q h. absurd (starts l disconnect_nbd q))
        disconnect-Free

  release-Free : Triple Orderly (release reply) Free Free
  release-Free = chain {Q = Unmounted} _ _ unmount_all (λ _. disconnect_all)

  connect-At :
      (img : String) (l : List Event) → Free l → At true false (ran (connect_nbd img) 0 ∷ l)
  unfolding connected mounted orderly connected_by mounted_by timely succeeded
  connect-At img l h = (refl, h.1, rw (h.0, h.1, h.2) refl)

  connect-fails :
      (img : String) (l : List Event) (n : ℕ) → Free l → Free (ran (connect_nbd img) (suc n) ∷ l)
  unfolding connected mounted orderly connected_by mounted_by timely succeeded
  connect-fails img l n h = (h.0, h.1, rw (h.0, h.1, h.2) refl)

  mount-At : (l : List Event) → At true false l → At true true (ran mount_partition 0 ∷ l)
  unfolding connected mounted orderly connected_by mounted_by timely succeeded
  mount-At l h = (h.0, refl, rw (h.0, h.1, h.2) refl)

  mount-fails :
      (l : List Event) (n : ℕ) → At true false l → Unmounted (ran mount_partition (suc n) ∷ l)
  unfolding connected mounted orderly connected_by mounted_by timely succeeded
  mount-fails l n h = (h.1, rw (h.0, h.1, h.2) refl)

  -- A required step on the mounted image, which is let go where the step fails.
  step-At :
      (x : Command)
      → Neutral x
      → Triple (At true true) (must_or reply x (release reply)) (At true true) Free
  step-At x t =
      required_or reply x (release reply) (λ l q h. absurd (starts l x q))
        (λ l h. Neutral-At x 0 l t h) (λ l n h. (Neutral-At x (suc n) l t h).2) release-Free

  write-At :
      {c m : Bool} (path : String) (lines : List Line)
      → Triple (At c m) (note (wrote path lines)) (At c m) Free
  unfolding connected mounted orderly
  write-At path lines = noted reply (wrote path lines) (λ l h. h)

  Neutral-Orderly :
      (x : Command) (n : ℕ) (l : List Event) → Neutral x → Orderly l → Orderly (ran x n ∷ l)
  unfolding orderly
  Neutral-Orderly x n l t h = rw (t.2 (connected l) (mounted l), h) refl

  plop_linux_config-Free :
      (c : Computer) (dst img : String)
      → Triple Orderly (plop_linux_config reply c dst img) Free Free
  unfolding plop_linux_config connected_by mounted_by timely orderly connected mounted
  plop_linux_config-Free c dst img =
      chain {Q = Orderly} _ _ (noted reply (wrote (script_path dst c) (init_script c)) (λ l h. h))
        (λ _.
          chain {Q = Orderly} _ _
            (attempted reply (make_executable (script_path dst c))
              (λ l q h. absurd (starts l (make_executable (script_path dst c)) q))
              (λ l n h.
                Neutral-Orderly (make_executable (script_path dst c)) n l
                  (λ n b. refl, λ n b. refl, λ c m. refl) h))
            (λ _.
              chain {Q = Orderly} _ _
                (attempted reply load_nbd (λ l q h. absurd (starts l load_nbd q))
                  (λ l n h. Neutral-Orderly load_nbd n l (λ n b. refl, λ n b. refl, λ c m. refl) h))
                (λ _. chain {Q = Unmounted} _ _ unmount_all (λ _.
                  chain {Q = Free} _ _ disconnect_all (λ _.
                    chain {Q = At true false} _ _
                      (required reply (connect_nbd img)
                        (λ l q h. absurd (starts l (connect_nbd img) q)) (λ l h. connect-At img l h)
                        (λ l n h. connect-fails img l n h))
                      (λ _.
                        chain {Q = At true true} _ _
                          (required_or reply mount_partition _
                            (λ l q h. absurd (starts l mount_partition q)) (λ l h. mount-At l h)
                            (λ l n h. mount-fails l n h) disconnect_all)
                          (λ _.
                            chain {Q = At true true} _ _
                              (step-At make_marina_dir (λ n b. refl, λ n b. refl, λ c m. refl))
                              (λ _.
                                chain {Q = At true true} _ _
                                  (step-At (copy_script (script_path dst c))
                                    (λ n b. refl, λ n b. refl, λ c m. refl))
                                  (λ _.
                                    chain {Q = At true true} _ _
                                      (step-At copy_libs (λ n b. refl, λ n b. refl, λ c m. refl))
                                      (λ _.
                                        chain {Q = At true true} _ _
                                          (step-At copy_bins
                                            (λ n b. refl, λ n b. refl, λ c m. refl))
                                          (λ _.
                                            chain {Q = At true true} _ _
                                              (write-At conf_path (words "/usr/local/lib" ∷ []))
                                              (λ _.
                                                chain {Q = At true true} _ _
                                                  (write-At service_path service_lines)
                                                  (λ _.
                                                    chain {Q = At true true} _ _
                                                      (attempted reply link_service
                                                        (λ l q h. absurd (starts l link_service q))
                                                        (λ l n h.
                                                          Neutral-At link_service n l
                                                            (λ n b. refl, λ n b. refl, λ c m. refl)
                                                            h))
                                                      (λ _. release_all))))))))))))))
    where
      release_all : Triple (At true true) (release reply) Free Free
      release_all = record { ends = λ s h. release-Free.ends s h.2 }

  -- Where every command can be started, umount succeeds while the image is mounted, and qemu-nbd
  -- --disconnect while it is connected and not mounted: however plopLinuxConfig ends, and whatever the
  -- other commands reply, no image is connected or mounted then; and no image is connected over another one
  -- or disconnected while it is mounted, if none was before.
  pub plop_linux_config-releases :
      (c : Computer) (dst img : String) (s : Machine)
      → orderly s.log ≡ true
      → let l = (plop_linux_config reply c dst img s).1.log in
        (connected l ≡ false) × (mounted l ≡ false) × (orderly l ≡ true)
  plop_linux_config-releases c dst img s h =
      Ended-same Free (plop_linux_config reply c dst img s)
        ((plop_linux_config-Free c dst img).ends s h)
