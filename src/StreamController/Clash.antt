-- ===== src/StreamController/Clash.antt =====
-- An event stream with the id of a data stream.
use joule.Base.{
  ℕ, ◌≡◌, refl, ◌∙◌, Bool, true, false, ◌||◌, ◌&&◌, not, List, [], ◌∷◌, ◌==◌, arith, if_ind,
}
use joule.Base.Text.{Text, text_eq_refl}
use joule.StreamController.{
  StreamEntry, is_named, name_in_folder, is_stream, change_stream, accepted, rename_stream,
}

-- The folder has the data stream.
abbrev pub has_stream : ℕ → ℕ → List StreamEntry → Bool
has_stream x folder [] = false
has_stream x folder (row ∷ rows) =
    (is_stream x row && row.folder_id == folder) || has_stream x folder rows

abbrev pub is_event_stream : StreamEntry → Bool
is_event_stream row = row.is_event

abbrev pub is_data_stream : StreamEntry → Bool
is_data_stream row = not row.is_event

abbrev pub has_other_id : ℕ → StreamEntry → Bool
has_other_id x row = not (row.id == x)

module _ (x folder : ℕ) (name : Text) where
  abbrev renamed : StreamEntry → StreamEntry
  renamed row = record row { name = name }

  -- Rows that do not count for the change are named as before.
  others_keep_names :
      (counts : StreamEntry → Bool) (rows : List StreamEntry)
      → ((row : StreamEntry) → is_stream x row ≡ true → counts row ≡ false)
      → ((row : StreamEntry) → is_stream x row ≡ true → counts (renamed row) ≡ false)
      → name_in_folder counts (change_stream x renamed rows) folder name
        ≡ name_in_folder counts rows folder name
  unfolding name_in_folder change_stream
  others_keep_names counts [] before after = refl
  others_keep_names counts (row ∷ rows) before after =
      let rest = name_in_folder counts (change_stream x renamed rows) folder name in
      let others = others_keep_names counts rows before after in
      if_ind
        (λ (r : StreamEntry).
          (is_named counts r folder name || rest)
          ≡ (is_named counts row folder name || name_in_folder counts rows folder name))
        (is_stream x row) (λ e. ground (arith, others, before row e, after row e))
        (λ e. ground (arith, others))

  renamed-data :
      (rows : List StreamEntry)
      → has_stream x folder rows ≡ true
      → name_in_folder is_data_stream (change_stream x renamed rows) folder name ≡ true
  unfolding name_in_folder change_stream
  renamed-data [] h = h
  renamed-data (row ∷ rows) h =
      let rest = name_in_folder is_data_stream (change_stream x renamed rows) folder name in
      if_ind (λ (r : StreamEntry). (is_named is_data_stream r folder name || rest) ≡ true)
        (is_stream x row) (λ e. ground (arith, e, text_eq_refl name, renamed-data rows))
        (λ e. ground (arith, e, renamed-data rows))

  -- Where an event stream of the folder of a data stream has the id of the data stream, and no stream of
  -- another id in the folder has its name, `update` accepts this name for the data stream: the folder
  -- then has a data stream and an event stream of one name.
  pub rename_stream-clash :
      (rows : List StreamEntry)
      → has_stream x folder rows ≡ true
      → name_in_folder is_event_stream rows folder name ≡ true
      → name_in_folder (has_other_id x) rows folder name ≡ false
      → (rows' : List StreamEntry) × (rename_stream x folder name rows ≡ accepted rows')
        × (name_in_folder is_event_stream rows' folder name ≡ true)
        × (name_in_folder is_data_stream rows' folder name ≡ true)
  unfolding rename_stream
  rename_stream-clash rows here event free =
      let same_id =
        others_keep_names (has_other_id x) rows (λ row e. ground arith) (λ row e. ground arith) in
      let events =
        others_keep_names is_event_stream rows (λ row e. ground arith) (λ row e. ground arith) in
      (
        change_stream x renamed rows,
        rw (same_id ∙ free) refl,
        events ∙ event,
        renamed-data rows here,
      )
