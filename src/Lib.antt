-- ===== src/Lib.antt =====
-- The front end of ASL Bissieux (frontend/src/app), an Angular application over a REST API: the
-- parts that keep state or decide something, with what makes them correct.
-- A file that several places use stands first: Prelude (lists, integers, texts, tests),
-- Sorting (`Array.prototype.sort`), Directory (the schemas of members and lots), Query (the numbers
-- in an address; Query/Decimal writes them).
--   Source       shared/datasources/index.ts: `DataSource`, the state every table reads;
--                Source/Users the source of users, Source/Paged the paged sources and, in
--                Source/Paged/Requests, those of campaigns and of e-mails
--   Budgets      Payments: budgets/payment-state.ts and budgets/datasources/cotisation.datasource.ts;
--                History: budgets/components/financial-history, refunds and adjustments;
--                Recipients and Message: budgets/components/budget-email-form, who receives the
--                e-mails of a budget, and the form that prepares them; Details:
--                budgets/components/budget-details
--   Table        Selection, Columns and Rows of shared/components/crud-table,
--                shared/datasources/crud-table.datasource.ts and shared/models/column.model.ts
--   Emails       States: emails/email-state.ts; List: emails/components/email-list;
--                Sending: emails/components/email-sending-popup, with the selection it is opened on
--   Editor       shared/components/template-data-editor: the values of a template as rows or as JSON
--   Auth         core/services/auth.service.ts; Access: core/guards and core/interceptors;
--                Requests: the requests of the service and which answers can come
--   MultiSelect  shared/components/multi-select
--   Tour         tour/tour.service.ts: the guided tour and whose it is; Chapters:
--                tour/tour.component.ts, the walk through it
--   Members      Matching: members/member-directory.ts; Page and Views:
--                members/components/member-list, the selection, its dialog and its address;
--                Feed: members/datasources/member.datasource.ts
--   Map          shared/components/interactive-map: keyboard, marks and, in Classes, the classes
--   Dashboard    dashboard/dashboard.component.ts: Choice, what the address selects; Stream, a value
--                read for a key; Events, what happens; Views and Navigation
--   Mailings     mailings/mailings.component.ts: the lists of the provider
--   Theme        core/services/theme.service.ts
--   Users        users/user-labels.ts; Decisions: users/components/user-list, the decisions on the
--                access of an account; Form: users/components/user-form, its rights
-- The dashboard takes the state of a cotisation from Budgets and the search from Members; Members and
-- Dashboard read and write addresses by Query; Message validates its values by Editor.
-- A component is a record of its fields and of the subjects that it owns; a method is a function on
-- that record, with the guards and the early returns of the source. The streams of RxJS are read as
-- documented: a subscription that delivers is an event, a subject that has completed publishes
-- nothing more, `switchMap` and `takeUntil` drop the answers to what they have left (a number tells
-- the calls apart), `finalize` runs when a stream ends or is left, `concatMap` takes one after the
-- other. Where the order of events is free, `Step` and `Reach`, or a
-- list of events that `run` takes, range over every order.
-- The answers of the API and of the Google library, the clock, `JSON.parse`, `JSON.stringify`, `URL`
-- and the comparison of values of any type are parameters. Amounts are integers in a unit that
-- divides them all. `trim` knows the white space of ECMAScript; texts are sequences of characters.
-- Loops run over lists; only the decimal writing of a number takes fuel, one more than the number,
-- which is enough: what is written is read back.
-- Not modelled: the templates, the texts of the dialogs, the focus, the HTTP client and most of its
-- generated schemas, the list of budgets and that of payments, the lists of e-mail templates and
-- attachments, the form of members, and the server.
pub mod Prelude
pub mod Query
pub mod Sorting
pub mod Directory
pub mod Source
pub mod Budgets
pub mod Table
pub mod Emails
pub mod Editor
pub mod Auth
pub mod MultiSelect
pub mod Tour
pub mod Members
pub mod Map
pub mod Dashboard
pub mod Mailings
pub mod Theme
pub mod Users
