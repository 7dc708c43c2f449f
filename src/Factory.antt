-- ===== src/Factory.antt =====
-- api/factory.go: how a request of the HTTP interface becomes a task. The parameters of a request are
-- given decoded, with the error of decoding if there is one; what the storages, aria2, the parsers and
-- Telegram answer is `Outside`, and the title of a task is a function of it.
pub mod Outcome
mod Examples
use save_any_bot.Prelude.{
  Checked, ok, refused, and_then, or_refused, ℕ, Bool, true, false, String, Option, none, some,
  List, [], ◌∷◌, str_eq, if◌then◌else◌,
}
use save_any_bot.TaskEvent.{Event, source_api, Context}
use save_any_bot.Queue.{Contexts, TaskQueue, QueueError}
use save_any_bot.Core.{Executable, add_task}
use save_any_bot.Progress.{
  TaskStatus, queued, ProgressStore, register_task, delete_task, store_emit,
}

pub data TaskType : Type 0 where
  directlinks ytdlp aria2 parseditem tgfiles tphpics transfer : TaskType
  unknown_type : String → TaskType

unfoldable pub type_name : TaskType → String
type_name directlinks = "directlinks"
type_name ytdlp = "ytdlp"
type_name aria2 = "aria2"
type_name parseditem = "parseditem"
type_name tgfiles = "tgfiles"
type_name tphpics = "tphpics"
type_name transfer = "transfer"
type_name (unknown_type name) = name

-- The fields of all parameters.
pub record Params : Type 0 where
  pub urls : List String
  pub flags : List String
  pub url : String
  pub message_links : List String
  pub telegraph_url : String
  pub source_storage : String
  pub source_path : String
  pub target_storage : String
  pub target_path : String

pub record CreateTaskRequest : Type 0 where
  pub type : TaskType
  pub storage : String
  pub path : String
  pub webhook : String
  pub params : Checked Params

pub record CreateTaskResponse : Type 0 where
  pub task_id : String
  pub type : TaskType
  pub status : TaskStatus
  pub created_at : ℕ

-- The task that is made, with what it works on.
pub data NewTask {ℓ} (F : Type ℓ) : Type ℓ where
  links_task : List String → NewTask F
  ytdlp_task : List String → List String → NewTask F
  aria2_task : String → List String → NewTask F
  parsed_task : String → NewTask F
  file_task : F → NewTask F
  batch_task : List F → NewTask F
  pics_task : String → List F → NewTask F
  transfer_task : List F → NewTask F

pub record Parser : Type 0 where
  pub can_handle : String → Bool
  pub parse : String → Checked String

pub record Outside {ℓ} (F : Type ℓ) : Type ℓ where
  pub has_storage : String → Bool
  pub aria2_enabled : Bool
  pub aria2_client : Checked String
  pub add_uri : List String → Checked String
  pub parsers : List Parser
  pub extract_files : List String → Checked (List F)
  pub make_element : F → Checked F
  pub extract_images : String → Checked (String × List F)
  pub is_readable : String → Bool
  pub is_listable : String → Bool
  pub list_files : String → String → Checked (List F)
  pub title : NewTask F → String

-- A task, and the storage and the path that its record shows.
pub record Prepared {ℓ} (F : Type ℓ) : Type ℓ where
  pub task : NewTask F
  pub storage : String
  pub path : String

unfoldable pub check : String → Bool → Checked Bool
check e true = ok true
check e false = refused e

unfoldable pub not_empty {ℓ} : {A : Type ℓ} → String → List A → Checked (List A)
not_empty e [] = refused e
not_empty e (x ∷ xs) = ok (x ∷ xs)

unfoldable pub not_blank : String → String → Checked String
not_blank e s = if str_eq s "" then refused e else ok s

unfoldable pub find_parser : List Parser → String → Option Parser
find_parser [] url = none
find_parser (p ∷ ps) url =
    let rest = find_parser ps url in if p.can_handle url then some p else rest

module _ {ℓ} {F : Type ℓ} (out : Outside F) where
  -- The elements of a batch; the first that cannot be made is the error.
  unfoldable pub make_elements : List F → Checked (List F)
  unfolding and_then
  make_elements [] = ok []
  make_elements (f ∷ fs) =
      and_then (out.make_element f) λ e. and_then (make_elements fs) λ es. ok (e ∷ es)

  unfoldable pub make_files_task : List F → Checked (NewTask F)
  unfolding and_then make_elements
  make_files_task (f ∷ []) = and_then (out.make_element f) λ e. ok (file_task e)
  make_files_task [] = and_then (make_elements []) λ es. ok (batch_task es)
  make_files_task (f ∷ g ∷ fs) = and_then (make_elements (f ∷ g ∷ fs)) λ es. ok (batch_task es)

  unfoldable pub parse_item : String → Checked (NewTask F)
  unfolding and_then find_parser or_refused
  parse_item url =
      and_then (or_refused "no parser found for URL" (find_parser out.parsers url))
        λ p. and_then (p.parse url) λ item. ok (parsed_task item)

  unfoldable pub add_to_aria2 : List String → Checked (NewTask F)
  unfolding and_then check
  add_to_aria2 urls = and_then (check "aria2 is not enabled" out.aria2_enabled) λ e.
      and_then out.aria2_client λ c. and_then (out.add_uri urls) λ gid. ok (aria2_task gid urls)

  unfoldable pub transfer_of : Params → Checked (NewTask F)
  unfolding and_then check not_empty
  transfer_of p =
      and_then (check "source storage not found" (out.has_storage p.source_storage)) λ a.
        and_then (check "target storage not found" (out.has_storage p.target_storage)) λ b.
          and_then
            (check "source storage does not support reading" (out.is_readable p.source_storage))
            λ c.
              and_then
                (check "source storage does not support listing" (out.is_listable p.source_storage))
                λ d. and_then (out.list_files p.source_storage p.source_path) λ files.
                  and_then (not_empty "no files found at source path" files)
                    λ fs. ok (transfer_task fs)

  unfoldable pub on_request : CreateTaskRequest → NewTask F → Prepared F
  on_request req t = record { task = t; storage = req.storage; path = req.path }

  -- The branches of `CreateTask`, up to `registerAndEnqueueTask`.
  unfoldable pub prepare_direct_links : CreateTaskRequest → Checked (Prepared F)
  unfolding and_then not_empty on_request
  prepare_direct_links req =
      and_then req.params λ p.
        and_then (not_empty "no URLs provided" p.urls) λ us. ok (on_request req (links_task us))

  unfoldable pub prepare_ytdlp : CreateTaskRequest → Checked (Prepared F)
  unfolding and_then not_empty on_request
  prepare_ytdlp req = and_then req.params λ p.
      and_then (not_empty "no URLs provided" p.urls)
        λ us. ok (on_request req (ytdlp_task us p.flags))

  unfoldable pub prepare_aria2 : CreateTaskRequest → Checked (Prepared F)
  unfolding and_then not_empty add_to_aria2 on_request
  prepare_aria2 req = and_then req.params λ p.
      and_then (not_empty "no URLs provided" p.urls)
        λ us. and_then (add_to_aria2 us) λ t. ok (on_request req t)

  unfoldable pub prepare_parsed : CreateTaskRequest → Checked (Prepared F)
  unfolding and_then not_blank parse_item on_request
  prepare_parsed req = and_then req.params λ p.
      and_then (not_blank "no URL provided" p.url)
        λ u. and_then (parse_item u) λ t. ok (on_request req t)

  unfoldable pub prepare_tg_files : CreateTaskRequest → Checked (Prepared F)
  unfolding and_then not_empty make_files_task on_request
  prepare_tg_files req = and_then req.params λ p.
      and_then (not_empty "no message links provided" p.message_links) λ ls.
        and_then (out.extract_files ls) λ files.
          and_then (not_empty "no files found in provided links" files)
            λ fs. and_then (make_files_task fs) λ t. ok (on_request req t)

  unfoldable pub prepare_tph_pics : CreateTaskRequest → Checked (Prepared F)
  unfolding and_then not_empty not_blank on_request
  prepare_tph_pics req = and_then req.params λ p.
      and_then (not_blank "no telegraph URL provided" p.telegraph_url) λ u.
        and_then (out.extract_images u) λ page.
          and_then (not_empty "no images found in telegraph page" page.1)
            λ pics. ok (on_request req (pics_task page.0 pics))

  unfoldable pub prepare_transfer : CreateTaskRequest → Checked (Prepared F)
  unfolding and_then transfer_of
  prepare_transfer req = and_then req.params λ p.
      and_then (transfer_of p)
        λ t. ok (record { task = t; storage = p.target_storage; path = p.target_path })

  unfoldable pub prepare : TaskType → CreateTaskRequest → Checked (Prepared F)
  unfolding prepare_direct_links prepare_ytdlp prepare_aria2 prepare_parsed prepare_tg_files
      prepare_tph_pics prepare_transfer
  prepare directlinks req = prepare_direct_links req
  prepare ytdlp req = prepare_ytdlp req
  prepare aria2 req = prepare_aria2 req
  prepare parseditem req = prepare_parsed req
  prepare tgfiles req = prepare_tg_files req
  prepare tphpics req = prepare_tph_pics req
  prepare transfer req = prepare_transfer req
  prepare (unknown_type name) req = refused "unsupported task type"

-- The store of the records and the queue, which the factory shares with the workers.
pub record Server : Type 0 where
  pub store : ProgressStore
  pub queue : TaskQueue Executable

-- The events of the factory's context go to the store.
unfoldable pub observe : ProgressStore → Option Event → ℕ → ProgressStore
unfolding store_emit
observe s none now = s
observe s (some e) now = (store_emit s e now).0

unfoldable pub after_add :
    ProgressStore
    → String
    → ℕ
    → TaskQueue Executable × Option QueueError × Option Event
    → Server × Option QueueError
unfolding observe delete_task
after_add s id now (q, some e, event) = (record { store = delete_task s id; queue = q }, some e)
after_add s id now (q, none, event) = (record { store = observe s event now; queue = q }, none)

-- `ref` is the identity of the new task's context.
unfoldable pub register_and_enqueue_task :
    Contexts → ℕ → ℕ → Server → Executable → String → String → String → Server × Option QueueError
unfolding register_task add_task after_add
register_and_enqueue_task ctxs ref now s exe storage path webhook =
    after_add (register_task s.store exe.task_id exe.type storage path exe.title webhook now)
      exe.task_id now (add_task ctxs s.queue exe ref now source_api)

unfoldable pub respond :
    String → TaskType → ℕ → Server × Option QueueError → Server × Checked CreateTaskResponse
respond id type now (s, some e) = (s, refused "failed to add task")
respond id type now (s, none) =
    (s, ok (record { task_id = id; type = type; status = queued; created_at = now }))

module _ {ℓ} {F : Type ℓ} (out : Outside F) where
  unfoldable pub executable : String → TaskType → NewTask F → Executable
  unfolding type_name
  executable id type t = record { type = type_name type; title = out.title t; task_id = id }

  unfoldable pub after_prepare :
      Contexts
      → ℕ
      → ℕ
      → String
      → Server
      → CreateTaskRequest
      → Checked (Prepared F)
      → Server × Checked CreateTaskResponse
  unfolding register_and_enqueue_task respond executable
  after_prepare ctxs ref now id s req (refused e) = (s, refused e)
  after_prepare ctxs ref now id s req (ok p) = respond id req.type now (
      register_and_enqueue_task ctxs ref now s (executable id req.type p.task) p.storage p.path
        req.webhook)

  -- `id` and `now` are the new ID and the time of the request.
  unfoldable pub create_task :
      Contexts → ℕ → ℕ → String → Server → CreateTaskRequest → Server × Checked CreateTaskResponse
  unfolding prepare after_prepare
  create_task ctxs ref now id s req =
      if out.has_storage req.storage
      then after_prepare ctxs ref now id s req (prepare out req.type req)
      else (s, refused "storage not found")
