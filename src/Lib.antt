-- ===== src/Lib.antt =====
-- A model of mural, a wallpaper daemon for Wayland compositors: murald draws wallpapers on the
-- outputs, muralctl sends it requests, and the crate mural-core keeps what is on display, what was,
-- and what comes next.
--
-- The model follows crates/mural-core/src/wallpaper.rs, the part of the daemon that decides which
-- wallpaper each output shows. `WallpaperControl` has a library (the image files of one directory),
-- a shuffle bag that favorites are in several times, and one layout for each set of outputs: a
-- history of rows with a window on it. A request prepares a change on a layout that is taken out of
-- the map; the daemon renders it, and then either commits it, which writes the state files, or rolls
-- it back.
--
--   Prelude      texts as lists of characters, lists and tests over the native numbers, and
--                arithmetic that saturates or wraps at 64 bits (usize and u64)
--   Exec         Result with an explicit state; `running` stands for a loop that has used up its fuel
--   Results      Result without a state: `?` and ok_or_else; predicates on what is returned
--   Decimal      to_string and str::parse of unsigned integers
--   Path, Disk   the parts of std::path and std::fs that the source uses: regular files,
--                directories, and paths on which every call fails; atomic_write_text and
--                atomic_write_lines of wallpaper.rs on them
--   Wallpaper    crates/mural-core/src/wallpaper.rs
--     Rng          SimpleRng
--     Shuffle      WallpaperControl::shuffle; Shuffle.Checked has the panic of `swap`
--     Layout       LayoutState (window_start, get_window, trim_history, prune_history, append_set)
--     Control      the fields of WallpaperControl (`Control`, with the disk: `Sys`), the scan of the
--                  directory, persist_core_state
--     Bag          rebuild_bag, rescan_top_level, bag_next_n; Bag.Weights counts what is in the bag,
--                  Bag.Orders has the orders of a shuffle
--     Actions      the methods on a borrowed layout: ensure_window, run_next_back, run_shift,
--                  run_replace, heal_selection
--     Storage      LayoutState::load and LayoutState::write, with the text of the three files
--     Change       prepare_wallpaper_change, prepare_startup_display, move_quarantine,
--                  commit_wallpaper_change, rollback_wallpaper_change, favorite_action and the
--                  responses that render nothing
--     Preview      preview_window, canvas_preview_window_for_prepared_change, add_top_level_file
--     Examples     small states, runs and tests
--   Json         crates/mural-ipc/src/json.rs, and json_string of crates/mural-ipc/src/lib.rs
--     Utf8         the encoding of str
--     Chars        JsonParser: bytes, escapes, characters
--     Tokens       parse_string, parse_number
--     Value        JsonValue, parse_value, parse_object, parse_array, parse_json
--     Writer       json_string, object, encode_string_array
--     Reads        texts that parse_value reads, for numbers, strings, arrays and objects
--   Protocol     crates/mural-ipc/src/lib.rs
--     Words        the enumerations with as_str and parse, as instances of one interface
--     Registry     crates/mural-ipc/src/transition_registry.rs
--     Messages     Transition, Request and the records that they carry
--     Fields       as_object, required_string, optional_usize, required_outputs and the like
--     Float        the f32 of overview_scale: a bit pattern; `format!` and `parse` are the parameter
--                  `Float32`
--     Transitions  Transition::parse_cli_token, parse_transition
--     RequestParts, Requests  parse_request, parse_public_request and the parsers of each request
--     Writer       Request::to_json, encode_transition
--     Items, Maps, TransitionFields, TransitionBack, RequestFields, RequestText, RequestBack,
--     RequestRoundTrip  what is written, and that it is read back
--     TokenBounds, Accepted, FieldBounds, RequestBounds, AcceptedRequests  what the readers accept
--     Public       parse_public_request beside parse_request
--     Responses    Response::to_json; parse_wallpaper_response, parse_health_response,
--                  response_is_error, response_error_message
--   Canvas       crates/murald/src/transitions/canvas/layout.rs
--     Tiles        canvas_tile_paths
--     Slots        arrange_canvas_tile_paths; the overview grid and the focus margin, which the source
--                  computes with floating-point numbers, are fields of its argument
--   ActionMap    crates/mural-core/src/actions.rs
--   Supervisor   crates/murald/src/supervisor.rs: render_wallpaper_action, render_prepared_change;
--                validate_image_paths of crates/murald/src/main.rs
--     Restores     what a failed change leaves behind
--     Lost         what a failed move to quarantine leaves behind
--     Commits      what a committed change leaves behind
--     Neighborhood world_neighborhood_centers
--
-- The supervisor calls the operations of Wallpaper on the layouts, sends the renderer the requests of
-- Protocol as text, and reads the answers with the functions of Protocol.Responses. The renderer
-- process with its restarts, the check of the world cache and the requests that are built from the
-- health of the outputs are fields of the argument `Parts`.
--
-- Loops. `bag_next_n` and `ensure_window` of the source have no bound; the model gives each a number
-- of rounds and returns `running` where they do not suffice, so that a loop that never ends shows as
-- `running` for every number. A draw inside `ensure_window` has rounds of its own. The search for a
-- free name in `unique_destination` is bounded in the same way. The fuel of `parse_json` bounds the
-- depth of its calls and the rounds of its loops; one more than the length of the input is enough.
-- `print_usize` has twenty rounds, one for each digit of a number below 2 ^ 64.
--
-- Numbers. usize is 64 bits wide. Additions and products that the source leaves unchecked wrap,
-- `saturating_*` saturates, and subtractions that the source guards are plain.
--
-- The f32 scale of a canvas transition is kept as its bit pattern, so that its bounds are computed. How
-- `core` formats and parses it is the parameter `Float32`.
--
-- Not modelled: rendering (OpenGL, EGL, Wayland), sockets, processes, image decoding, and the seed of
-- the generator, which is read from the clock. The order in which a directory is read is the order
-- of the file list of `Disk`.
pub mod Prelude
pub mod Exec
pub mod Results
pub mod Decimal
pub mod Path
pub mod Disk
pub mod Wallpaper
pub mod Json
pub mod Protocol
pub mod Canvas
pub mod ActionMap
pub mod Supervisor
