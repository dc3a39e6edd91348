-- ===== src/Downloader/Ending.antt =====
-- How a download ends, from the events of the two processes.
use mathlib.Core.Option.{some-injective}
use youtube_ar.Base.{
  String, List, [], ◌∷◌, ◌++◌, Option, none, some, ok, err, GoError, Context, ◌≡◌, refl, ap, sym,
  ◌∙◌, All, Result-cases, Option-cases, inl, inr, arith, false,
}
use youtube_ar.Model.{Url}
use youtube_ar.Sql.{Querier}
use youtube_ar.Process.{Process}
use youtube_ar.Tor
use youtube_ar.Tor.{TorEvent, is_bootstrapped, line_events, output_events, wait_events}
use youtube_ar.Youtubedl.{YoutubedlEvent}
use youtube_ar.Downloader.{
  Event, from_tor, from_youtubedl, Files, Ended, Progress, await_tor, on_event, drain, store_file,
  finish, start_progress, signalled, download_url,
}

-- The path of the last success, or the empty one, and the error of the last failure.
abbrev pub last_path : List Event → String → String
last_path [] path = path
last_path (from_youtubedl (YoutubedlEvent.success p) ∷ more) path = last_path more p
last_path (_ ∷ more) path = last_path more path

abbrev pub IsNoFailure : Event → Type 0
IsNoFailure (from_youtubedl (YoutubedlEvent.failure e)) = ⊥
IsNoFailure _ = Unit

abbrev pub first_signal : List TorEvent → Option TorEvent
first_signal [] = none
first_signal (TorEvent.log text ∷ more) = first_signal more
first_signal (TorEvent.failure e ∷ more) = some (TorEvent.failure e)
first_signal (TorEvent.ready proxy ∷ more) = some (TorEvent.ready proxy)

module _ (db : Querier) (ctx : Context) (url : Url) where
  await_tor_signal :
      (events : List TorEvent) (c : db.Conn)
      → (await_tor db ctx url events c).0 ≡ first_signal events
  unfolding await_tor
  await_tor_signal [] c = refl
  await_tor_signal (TorEvent.log text ∷ more) c = await_tor_signal more _
  await_tor_signal (TorEvent.failure e ∷ more) c = refl
  await_tor_signal (TorEvent.ready proxy ∷ more) c = refl

  logs_only :
      (output : List String)
      → All (λ line. is_bootstrapped line ≡ false) output
      → first_signal (output_events output ++ []) ≡ none
  unfolding output_events line_events
  logs_only [] h = refl
  logs_only (line ∷ more) (p, h) = rw p (logs_only more h)

  start_silent :
      (p : Process) (dir : String)
      → p.temp_dir ≡ ok dir
      → p.stderr_pipe ≡ ok tt
      → p.stdout_pipe ≡ ok tt
      → p.start ≡ ok tt
      → All (λ line. is_bootstrapped line ≡ false) p.output
      → p.wait ≡ ok tt
      → first_signal (Tor.start p) ≡ none
  unfolding Tor.start wait_events
  start_silent p dir temp stderr stdout starts quiet waits =
      rw (temp, stderr) (rw (stdout, starts) (rw waits (logs_only p.output quiet)))

  drain_path :
      (events : List Event) (p : Progress) (c : db.Conn)
      → (drain db ctx url events (p, c)).0.path ≡ last_path events p.path
  unfolding drain on_event
  drain_path [] p c = refl
  drain_path (from_tor (TorEvent.log text) ∷ more) p c = drain_path more _ _
  drain_path (from_tor (TorEvent.failure e) ∷ more) p c = drain_path more _ _
  drain_path (from_tor (TorEvent.ready proxy) ∷ more) p c = drain_path more _ _
  drain_path (from_youtubedl (YoutubedlEvent.log text) ∷ more) p c = drain_path more _ _
  drain_path (from_youtubedl (YoutubedlEvent.failure e) ∷ more) p c = drain_path more _ _
  drain_path (from_youtubedl (YoutubedlEvent.success path) ∷ more) p c = drain_path more _ _

  -- An error, once set, is only replaced by another.
  drain_error :
      (events : List Event) (p : Progress) (c : db.Conn)
      → (drain db ctx url events (p, c)).0.error ≡ none
      → (p.error ≡ none) × All IsNoFailure events
  unfolding drain on_event
  drain_error [] p c h = (h, tt)
  drain_error (from_tor (TorEvent.log text) ∷ more) p c h =
      let (e, k) = drain_error more _ _ h in (e, (tt, k))
  drain_error (from_tor (TorEvent.failure e) ∷ more) p c h =
      let (e, k) = drain_error more _ _ h in (e, (tt, k))
  drain_error (from_tor (TorEvent.ready proxy) ∷ more) p c h =
      let (e, k) = drain_error more _ _ h in (e, (tt, k))
  drain_error (from_youtubedl (YoutubedlEvent.log text) ∷ more) p c h =
      let (e, k) = drain_error more _ _ h in (e, (tt, k))
  drain_error (from_youtubedl (YoutubedlEvent.success path) ∷ more) p c h =
      let (e, k) = drain_error more _ _ h in (e, (tt, k))
  drain_error (from_youtubedl (YoutubedlEvent.failure e) ∷ more) p c h =
      let (e, k) = drain_error more _ _ h in absurd (ground arith)

  module _ {File : Type 0} (files : Files File) where
    download_url_signal :
        (tor : List TorEvent) (during : String → List Event) (c : db.Conn)
        → download_url db ctx url files tor during c
          ≡ signalled db ctx url files during (first_signal tor, (await_tor db ctx url tor c).1)
    unfolding download_url
    download_url_signal tor during c =
        ap (λ s. signalled db ctx url files during (s, (await_tor db ctx url tor c).1))
          (await_tor_signal tor c)

    -- Where the tor process starts, never prints that it is bootstrapped, and ends without an error,
    -- the download never ends: nothing is sent to the channel that it waits on.
    pub download_url_hangs :
        (p : Process) (dir : String) (during : String → List Event) (c : db.Conn)
        → p.temp_dir ≡ ok dir
        → p.stderr_pipe ≡ ok tt
        → p.stdout_pipe ≡ ok tt
        → p.start ≡ ok tt
        → All (λ line. is_bootstrapped line ≡ false) p.output
        → p.wait ≡ ok tt
        → (download_url db ctx url files (Tor.start p) during c).0 ≡ none
    download_url_hangs p dir during c temp stderr stdout starts quiet waits =
        ap (λ x. x.0) (download_url_signal (Tor.start p) during c)
        ∙ ap
            (λ s.
              (signalled db ctx url files during (s, (await_tor db ctx url (Tor.start p) c).1)).0)
            (start_silent p dir temp stderr stdout starts quiet waits)

    store_file_ok :
        (path name : String)
        → store_file db ctx url files path ≡ ok name
        → (f : File) × (files.open_file path ≡ ok f)
          × (files.save (files.base path) f ≡ ok tt)
          × (name ≡ files.base path)
    unfolding store_file
    store_file_ok path name h = elim (Result-cases (files.open_file path)) [
      | inr (e, k) ↦ absurd (ground arith)
      | inl (f, k) ↦ elim (Result-cases (files.save (files.base path) f)) [
        | inl (_, saved) ↦ (f, k, saved, ground arith)
        | inr (e, failed) ↦ absurd (ground arith)
      ]
    ]

    -- What a file that is stored was: the last that youtube-dl named, under its base name.
    pub record Saved (events : List Event) (ended : Ended) (name : String) : Type 0 where
      pub no_failure : All IsNoFailure events
      pub file : File
      pub opened : files.open_file (last_path events "") ≡ ok file
      pub saved : files.save (files.base (last_path events "")) file ≡ ok tt
      pub named : name ≡ files.base (last_path events "")
      pub cleaned : ended.removed ≡ files.dir (last_path events "") ∷ []

    finish_clean :
        (p : Progress)
        → p.error ≡ none
        → (finish db ctx url files p).result ≡ store_file db ctx url files p.path
    unfolding finish
    finish_clean p e = rw e refl

    finish_broken :
        (p : Progress) (x : GoError) → p.error ≡ some x → (finish db ctx url files p).result ≡ err x
    unfolding finish
    finish_broken p x e = rw e refl

    finish_error :
        (p : Progress) (name : String)
        → (finish db ctx url files p).result ≡ ok name
        → (p.error ≡ none) × (store_file db ctx url files p.path ≡ ok name)
    unfolding finish
    finish_error p name h = elim (Option-cases p.error) [
      | inl e ↦ (e, sym (finish_clean p e) ∙ h)
      | inr (x, e) ↦ let k = finish_broken p x e in absurd (ground arith)
    ]

    drained_Saved :
        (events : List Event) (c : db.Conn) (name : String)
        → let p = (drain db ctx url events (start_progress db ctx url files, c)).0 in
          (finish db ctx url files p).result ≡ ok name
          → Saved events (finish db ctx url files p) name
    unfolding finish
    drained_Saved events c name h =
        let start = start_progress db ctx url files in
        let p = (drain db ctx url events (start, c)).0 in
        let (clean, stored) = finish_error p name h in
        let (_, no_failure) = drain_error events start c clean in
        let path : p.path ≡ last_path events "" = drain_path events start c in
        let (f, opened, saved, named) =
          store_file_ok (last_path events "") name (rw path at stored) in
        record {
          no_failure = no_failure;
          file = f;
          opened = opened;
          saved = saved;
          named = named;
          cleaned = ap (λ x. files.dir x ∷ []) path;
        }

    -- The proxy of the signal, and what is stored after it.
    abbrev pub SavedAfter : Option TorEvent → (String → List Event) → Ended → String → Type 0
    SavedAfter signal during ended name =
        (proxy : String) × (signal ≡ some (TorEvent.ready proxy)) × Saved (during proxy) ended name

    failed_saves :
        (ended : Ended) (name : String) (e : GoError)
        → some (record { result = err e; removed = [] }) ≡ some ended
        → ¬ (ended.result ≡ ok name)
    failed_saves ended name e returns h =
        let k : err e ≡ ended.result = ap (λ x. x.result) (some-injective _ _ returns) in
        ground arith

    ready_saves :
        (proxy : String) (during : String → List Event) (c : db.Conn) (ended : Ended)
        (name : String)
        → (signalled db ctx url files during (some (TorEvent.ready proxy), c)).0 ≡ some ended
        → ended.result ≡ ok name
        → Saved (during proxy) ended name
    ready_saves proxy during c ended name returns h =
        let k = some-injective _ _ returns in
        rw k at (drained_Saved (during proxy) c name (ap (λ x. x.result) k ∙ h))

    signalled_saves :
        (tor : List TorEvent) (during : String → List Event) (c : db.Conn) (ended : Ended)
        (name : String)
        → (signalled db ctx url files during (first_signal tor, c)).0 ≡ some ended
        → ended.result ≡ ok name
        → SavedAfter (first_signal tor) during ended name
    signalled_saves [] during c ended name returns h = absurd (ground arith)
    signalled_saves (TorEvent.log text ∷ more) during c ended name returns h =
        signalled_saves more during c ended name returns h
    signalled_saves (TorEvent.failure e ∷ more) during c ended name returns h =
        absurd (failed_saves ended name e returns h)
    signalled_saves (TorEvent.ready proxy ∷ more) during c ended name returns h =
        (proxy, refl, ready_saves proxy during c ended name returns h)

    -- Where a download returns a file, tor signalled that it is ready before any failure, youtube-dl
    -- sent no failure over its proxy, the file that is named last was opened and saved in the storage
    -- under its base name, which is the name returned, and its directory is removed.
    pub download_url_saves :
        (tor : List TorEvent) (during : String → List Event) (c : db.Conn) (ended : Ended)
        (name : String)
        → (download_url db ctx url files tor during c).0 ≡ some ended
        → ended.result ≡ ok name
        → SavedAfter (first_signal tor) during ended name
    download_url_saves tor during c ended name returns h =
        signalled_saves tor during (await_tor db ctx url tor c).1 ended name
          (sym (ap (λ x. x.0) (download_url_signal tor during c)) ∙ returns) h
