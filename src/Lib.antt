-- ===== src/Lib.antt =====
-- The core of pilatus, a program for industrial machines: the recipes with their devices, parameters and
-- variables, the actor system through which the running devices exchange messages, the images that the
-- devices share, and the reader of uploads. A recipe's devices run as actors; the two meet in the ids of
-- devices alone, and the transactions on recipes reach the actors through the record `Outside`.
--
-- The parts and the files that model them:
-- - Base: numbers, texts, sorting and results that all parts share. Base/Text and Base/Int print and
--   parse the decimal numbers that names end in.
-- - HashMap: the table of the standard library as an association list in table order, with its laws.
-- - OrdHashMap: pilatus/src/recipe/ord_hash_map.rs. A map stores an index beside each value; the
--   functions of OrdHashMap/Defs carry the names of the methods and return the new map. `get_mut`
--   takes what the caller writes through the reference.
-- - Name: pilatus/src/name/mod.rs. A name is the list of its code points; `check` returns all errors.
--   `suggest_unique name k` is item number k of the iterator.
-- - Json: the values of serde_json, with the type of numbers as a parameter. The fields of an object
--   stand in the order of its map.
-- - Variables: pilatus/src/recipe/variable and the parameters of pilatus/src/recipe/mod.rs. A variable
--   is a JSON value that `try_from` lets pass; the loops over arrays and objects are functions on Items
--   and Fields beside each function on values.
-- - Recipe: pilatus/src/recipe/{device_config,recipe,recipes,service}.rs. Recipe/Config is a device,
--   Recipe/Defs a recipe, Recipe/Collection the state of all recipes: it uses OrdHashMap for recipes and
--   devices, Name for the ids, and Variables. A method that takes `&mut self` returns the new state
--   beside its result; an `Option` around the result is none where the code panics. Recipe/Steps has
--   the operations as a step relation.
-- - Service: pilatus-rt/src/recipe/{mod,recipes}.rs. A transaction of `RecipeDataService` is a function
--   on the recipes and a state of the world; it may panic (none), and what it has written stays
--   where it fails. Service/Defs has the transactions (Access the small steps). Devices (the
--   trait `DeviceActions`) and the file system are the record `Outside`, a parameter that may answer
--   anything. Service/Serve runs transactions one after the other, as the write lock does.
-- - RelativePath: pilatus/src/relative/path. A path is the list of the components that the standard
--   library reads from it. Defs has the two `validate` functions and the printing; the states of the
--   closures are arguments of `scan_folder` and `scan_file`.
-- - Actor: pilatus/src/device/system. Defs has the tables of the actor system, with registering,
--   handlers and dropping; an `Option` is none where the code panics. Senders has the lookups and
--   sending; the channels are the record `Channels`, a parameter. Execute is the loop of a device over
--   its messages as a step relation, in which a pending task may end at any time. Steps has the
--   operations of the tables as a step relation, beside the devices that are alive.
-- - Image: pilatus-engineering/src/image/mod.rs. Image/Defs has the images over a memory of allocations
--   with their owners; arithmetic on `u32` wraps, as in a release build, and an `Option` is none where
--   the code panics or reaches beyond an allocation. An allocation is given back whole, which
--   `clear_vec` does for elements of a byte. Image/Steps has the operations as a step relation on the
--   memory and the images alive. Image/Packing converts between packed and unpacked images.
--   Image/Hash and Image/Keys are image/stable_hash.rs, image/keys and image/message.rs;
--   Image/Broadcast is image/broadcaster.rs.
-- - Upload: pilatus-axum-rt/src/recipe/import/websocket_reader.rs. Upload/Defs is the state machine of
--   `poll_read`; a stream is the list of what its polls deliver, waiting included. Upload/Ends polls
--   until nothing more comes, on fuel: the bytes and the messages together are enough.
-- - Stream: pilatus-axum/src/image.rs. Stream/Defs has the encoders, with the JPEG encoder as a
--   parameter; Stream/Layout and Stream/Raw have a reader of the layout that the
--   code writes; the comment on `StreamableImage` has the size and the empty bytes of the alignment in
--   the other order.
-- - Content: `is_content_equal` of pilatus-rt/src/recipe/mod.rs, with the two buffers as lists and the
--   readers as a parameter; the rounds run on fuel, and one more than the first content has bytes is
--   enough for readers that fill the buffer.
-- - Runner: pilatus-rt/src/device.rs. Runner/Defs has the state of `RecipeRunnerImpl` and its operations
--   on the service; Runner/Steps the steps it takes, between which recipes are selected and the system
--   may shut down; Runner/Rounds says what it reaches in every order of its steps. What a device answers when it is spawned, and the writing of the recipes, are
--   parameters; a device ends at any time.
-- - Handler: pilatus/src/device/spawner.rs and pilatus-rt/src/recipe/parameters.rs. Handler/Defs builds
--   the actions that Service and Runner take as parameters from the handlers that are registered.
-- - Import: pilatus-rt/src/recipe/import. Import/Merge has the strategies and the function that adds a
--   recipe after its devices have been asked; Import/Apply works on a copy of the recipes, which
--   replaces them at the end; Import/Defs is the check on devices. Devices, files, serde_json and the ids
--   that are drawn are parameters.
--
-- Bounds: `get_unique_id` loops until an id is free. Its model runs on fuel, two steps more than there
-- are recipes; that is enough while the suggestions stay below `i32::MAX`, since each taken suggestion
-- is another recipe. The sizes of images wrap at 2 ^ 32, and a hash is read as a `u64`. Numbers are
-- unbounded otherwise: lengths and indices of maps stay below the size of the memory. What the code
-- leaves to an executor (the order of tasks, the polls of a stream, the room in a queue) is a step
-- relation or a parameter that may take any value.
--
-- Not modelled: input and output, asynchronous runtimes, the web server, and the typed
-- conversions of serde. Ids of devices are numbers. The time of creation is an argument.
pub mod Base
pub mod HashMap
pub mod OrdHashMap
pub mod Name
pub mod Json
pub mod Variables
pub mod Recipe
pub mod Service
pub mod RelativePath
pub mod Import
pub mod Actor
pub mod Image
pub mod Upload
pub mod Stream
pub mod Content
pub mod Handler
pub mod Runner
