-- ===== src/Ipc/SettingsTrip.antt =====
-- The settings that server/internal/ipc/handlers_settings.go sets and gets.
use sshbackup.Common.{
  ◌≡◌, refl, sym, ap, ◌∙◌, String, Bool, true, false, Option, none, some, List, [], ◌∷◌, inl, inr,
  ◌⊎◌,
}
use sshbackup.Common.Action.{pure, when, ◌>>=◌, ◌>>◌}
use sshbackup.Domain.{Error, invalid_config, Result, ok, err, Settings}
use sshbackup.Domain.Validate.{validate_settings}
use sshbackup.Domain.NewJob.{try, validated}
use sshbackup.Ipc.Dto.{SettingsDto}
use sshbackup.Ipc.Convert.{settings_to_dto, dto_to_settings}
use sshbackup.Ipc.Backend.{Backend, refused, done}
use sshbackup.Store.Table.{Table, IsTable}
use sshbackup.Store.Settings.{
  KeyedRow, same_number, IsSeeded, get_settings, update_settings, get_settings-update_settings,
}
use sshbackup.Ipc.Handlers.{handle_settings_get, handle_settings_set}

-- The backend's settings are those of the repository on a database with the row of the settings,
-- and the publication of an event does not touch the database.
pub record UsesStore {W Db : Type 0} (b : Backend W) (t : Table Db KeyedRow) (missing : Error)
    : Type 0 where
  pub table : IsTable t same_number
  pub database : W → Db
  pub gets : (w : W) → (b.get_settings w).0 ≡ (get_settings t missing (database w)).0
  pub updates :
      (s : Settings) (w : W) → (b.update_settings s w).0 ≡ (update_settings t s (database w)).0
  pub changes :
      (s : Settings) (w : W)
      → database (b.update_settings s w).1 ≡ (update_settings t s (database w)).1
  pub publishes : (s : Settings) (w : W) → database (b.publish_settings s w).1 ≡ database w

-- An answer with a value, or an error of the read.
abbrev pub ReadAs : {A : Type 0} → Result A → A → Type 0
ReadAs r a = (r ≡ ok a) ⊎ ((e : Error) × (r ≡ err e))

module _ {W Db : Type 0} (b : Backend W) {t : Table Db KeyedRow} {missing : Error}
    (k : UsesStore b t missing) where
  published :
      (on : Bool) (s : Settings) (w : W)
      → k.database (when on (b.publish_settings s) w).1 ≡ k.database w
  unfolding when
  published true s w = k.publishes s w
  published false s w = refl

  read_settings :
      (r : Result Settings) (s : Settings) (w : W)
      → (b.get_settings w).0 ≡ r
      → ReadAs r s
      → ReadAs (handle_settings_get b w).0 (settings_to_dto s)
  unfolding handle_settings_get ◌>>=◌ try pure
  read_settings r s w h (inl found) = inl (simp (h, found) refl)
  read_settings r s w h (inr (e, failed)) = inr (e, simp (h, failed) refl)

  got :
      (s : Settings) (w v : W)
      → IsSeeded t k.table (k.database w)
      → (b.update_settings s w).0 ≡ none
      → k.database v ≡ k.database (b.update_settings s w).1
      → ReadAs (handle_settings_get b v).0 (settings_to_dto s)
  got s w v seeded accepted same =
      let d = (update_settings t s (k.database w)).1 in
      read_settings (get_settings t missing d).0 s v
        (k.gets v ∙ ap (λ x. (get_settings t missing x).0) (same ∙ k.changes s w))
        (get_settings-update_settings t k.table missing s (k.database w) seeded
          (sym (k.updates s w) ∙ accepted))

  -- What `settings.set` comes to, by what is wrong with the settings.
  abbrev pub Sets : SettingsDto → List String → W → Result SettingsDto × W → Type 0
  Sets d (e ∷ es) w r = ((x : Error) × (r.0 ≡ err x) × (x.code ≡ some invalid_config)) × (r.1 ≡ w)
  Sets d [] w r =
      ((r.0 ≡ ok d) × ReadAs (handle_settings_get b r.1).0 d)
      ⊎ ((x : Error) × ((b.update_settings (dto_to_settings d) w).0 ≡ some x)
          × (r ≡ (err x, (b.update_settings (dto_to_settings d) w).1)))

  stored :
      (d : SettingsDto) (w : W) (failure : Option Error)
      → IsSeeded t k.table (k.database w)
      → (b.update_settings (dto_to_settings d) w).0 ≡ failure
      → Sets d [] w (
          try
            (done (dto_to_settings d) failure)
            (λ _. do
              when b.has_events (b.publish_settings (dto_to_settings d))
              pure (ok (settings_to_dto (dto_to_settings d))))
            (b.update_settings (dto_to_settings d) w).1)
  unfolding try ◌>>=◌ ◌>>◌ pure
  stored d w none seeded h =
      let s = dto_to_settings d in
      let after = (b.update_settings s w).1 in
      inl (refl, got s w _ seeded h (published b.has_events s after))
  stored d w (some e) seeded h = inr (e, h, refl)

  set_validated :
      (d : SettingsDto) (es : List String) (w : W)
      → IsSeeded t k.table (k.database w)
      → Sets d es w (
          try
            (refused (validated es (dto_to_settings d)))
            (λ v. do
              failure ← b.update_settings v
              try
                  (done v failure)
                  (λ _. do when b.has_events (b.publish_settings v); pure (ok (settings_to_dto v))))
            w)
  unfolding try ◌>>=◌
  set_validated d [] w seeded = stored d w (b.update_settings (dto_to_settings d) w).0 seeded refl
  set_validated d (e ∷ es) w seeded = ((_, refl, refl), refl)

  -- Where the backend's settings are the store's, and the database has the row of the settings:
  -- settings that are not valid are refused as an invalid configuration, and nothing changes. Valid
  -- ones are answered as they were sent, and settings.get answers them next or reports that the read
  -- failed; unless the store refuses them, and then its error is the answer.
  pub handle_settings_set-Sets :
      (d : SettingsDto) (w : W)
      → IsSeeded t k.table (k.database w)
      → Sets d (validate_settings (dto_to_settings d)) w (handle_settings_set b (ok d) w)
  unfolding handle_settings_set try
  handle_settings_set-Sets d w seeded =
      set_validated d (validate_settings (dto_to_settings d)) w seeded
