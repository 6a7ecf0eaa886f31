-- ===== src/Lib.antt =====
-- Commerce: an online shop's reference application in Go, with the tools that gate its releases.
--
-- A placement (orders/service.go) reserves stock (inventory/service.go), authorizes a payment
-- (payments/service.go) and saves the order (storage/order_repository.go) through an executor; when a
-- later step fails it gives the stock back. The HTTP boundary (orders/controller.go) turns the outcomes
-- into responses and public problems, reads publish a view that orders/view_audit.go counts, and a
-- placed order can have a receipt mailed (notifications/). Orders are stored through `database/sql`,
-- in the developer loop by the memory driver of storage/memory_*.go. platform/server.go owns the HTTP
-- listener. Two programs gate a release: internal/qualitygate runs the checks of a mode one after the
-- other, and internal/corecompat, which its last step starts, verifies the repository against the
-- versions of the framework that spice-compatibility.json names.
--
-- Prelude    shared names: numbers, lists, texts, maps, decimal numerals
-- Go         error values and `errors.Is`, contexts, functions that return a value or an error. Trees has
--            directory trees and `fs.WalkDir`; Actions has what runs programs and touches files
-- Inventory  inventory/service.go and settings.go: new_service, reserve, release, audit, verify_sku,
--            available. Clients has the interleavings of the critical sections
-- Payments   payments/: Service (new_service, authorize, approved), the offline processor, the contract
-- Storage    storage/: Record and the Orders contract. Memory is memory_connection.go,
--            memory_transaction.go and memory_database.go: begin_tx, insert_record, find, commit,
--            rollback; Memory/Statements has exec_context, query_context and memory_rows.go.
--            Repository is order_repository.go, Repository/Saves/Drivers the same over the driver.
--            Database is database.go and memory_migration_session.go: new_database, mode, apply, and
--            in Startup migrate
-- Orders     orders/service.go: new_service, place, place_within, find, catalog. Views is
--            view_audit.go; Controller is controller.go with the requests and responses; Persistence
--            and Atomicity are placements over the memory driver, Receipts the receipts of placements
-- Notifications  notifications/: new_delivery, send, new_notifier, send_receipt and their checks
-- Platform   platform/server.go: new_server, developer_authentication, start, stop, address
-- Corecompat internal/corecompat/contract.go: validate_contract, boundaries. Modules is
--            validate_module_contract and product_packages, Environments environment and
--            maps_equal, Snapshots repository_state and copy_application, Roots the search for the
--            repository's root, Commands the calls of the go command with alternate_modfile, and
--            Commands/Lines run, run_boundary, prepare_boundary, verify_boundary and
--            application_mirror, with the exit code of main.go
-- Qualitygate    internal/qualitygate/main.go: run, steps_for_mode, run_sequential. Checks has the body of
--            each step, Files the walks, Subprocesses command, capture, the environments and batches,
--            Roots the search for the root and the exit code
-- Application    internal/spicegen/commerce, the application that is generated from the annotations. Routes
--            has the handlers of the four routes (spice_http_route_*_gen.go), with POST /orders over the
--            memory driver in its Placements and GET /catalog in its Catalogs; Configuration is the
--            schema, Bindings the settings that are bound from it, Overrides ComposeBeanOverrides,
--            Registration the routes behind their guards, Providers the construction of the beans,
--            Features the executor and the hooks with the assembly, Command RunCommand
-- Tests      runs at concrete inputs
--
-- How the code is modelled:
-- - A method with a receiver that it changes takes the state and gives back its result with the new
--   state. A section under a mutex is one such step; concurrency is the interleaving of steps.
-- - An `int` is an integer that every operation reduces to 64 bits; a `uint64` count is a natural number
--   modulo 2 ^ 64. A string is its list of code points, and `len` counts the bytes of its encoding.
-- - An error is the format and the arguments it was made of, so that `errors.Is` computes on it.
-- - A context is what each successive look at it finds; it may end between any two looks. What is
--   called looks from a later point on.
-- - Payments, storage and view publishers are interfaces with a state of their own, as in the code. The
--   address parser, messages and transports, the network, security principals and the typed query of
--   the framework are parameters.
-- - The memory driver's transactions are entries of one store that a connection points to, as the Go
--   pointers do; a map is an association list whose order no result depends on.
-- - A program of the tooling is an action: it takes a world and gives back a result with the world. The
--   machine (files, subprocesses, temporary names) is the parameter Host; the commands that ran and the
--   temporary files that are there are recorded beside its state. Logging is left out. A JSON decoder,
--   SHA-256 and the floating point numbers are parameters, too.
-- - Every loop is a recursion on its list, but for two that run on fuel: the batches of arguments, where
--   each round of a positive size takes a value and the fuel is their number, and the search for the repository's
--   root, where each turn shortens the path and the fuel is one more than its length.
--
-- Not modelled: the rest of the generated code (internal/spicegen: the management endpoints, the methods
-- of the lifecycle, and the observers and loggers of the assembly), vendored libraries and the process
-- entry (main.go). The framework's migration runner, transaction manager, cache, interceptors,
-- configuration, executor, scheduler and lifecycle coordinator are parameters. Nil receivers are left out
-- where the construction excludes them, and an override of a bean gives one that is not nil.
pub mod Prelude
pub mod Go
pub mod Inventory
pub mod Payments
pub mod Storage
pub mod Orders
pub mod Notifications
pub mod Platform
pub mod Corecompat
pub mod Tests
pub mod Qualitygate
pub mod Application
